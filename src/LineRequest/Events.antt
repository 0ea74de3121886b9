-- ===== src/LineRequest/Events.antt =====
-- Waiting for the edge events of a request and reading them, of lib/line-request.c.
use libgpiod.Prelude.{ℕ, Option, Result}
use libgpiod.Kernel.{Kernel}
use libgpiod.EdgeEvent.{EventBuffer, read_fd}
use libgpiod.LineRequest.{LineRequest}
use libgpiod.Chip.{Timeout, poll_fd}

module _ (kernel : Kernel) where
  open kernel use {World}

  -- gpiod_line_request_wait_edge_events
  unfoldable pub wait_edge_events : World → LineRequest → Timeout → World × Result ℕ
  unfolding poll_fd
  wait_edge_events w r timeout = poll_fd kernel w r.fd timeout

  -- gpiod_line_request_read_edge_events
  unfoldable pub read_edge_events :
      World → LineRequest → Option EventBuffer → ℕ → World × Option EventBuffer × Result ℕ
  unfolding read_fd
  read_edge_events w r buffer max_events = read_fd kernel w r.fd buffer max_events
