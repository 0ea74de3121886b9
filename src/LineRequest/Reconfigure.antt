-- ===== src/LineRequest/Reconfigure.antt =====
-- gpiod_line_request_reconfigure_lines, through any kernel.
use libgpiod.Prelude.{
  ℕ, ◌≡◌, ◌≢◌, refl, ◌∙◌, inl, inr, ◌⊎◌, sym, true, false, some, List, [], ◌∷◌, ok, err, einval,
  arith, Bool-cases, get_elem?,
}
use libgpiod.Uapi.{V2LineRequest}
use libgpiod.Kernel.{Kernel, gpiod_ioctl}
use libgpiod.LineConfig.{LineConfig, PerLineConfig}
use libgpiod.LineConfig.Flags.{make_kernel_flags}
use libgpiod.LineConfig.ToUapi.{to_uapi, config_offsets}
use libgpiod.LineConfig.ToUapi.Effective.{line_flags}
use libgpiod.LineConfig.ToUapi.Request.{to_uapi-shape, to_uapi-flags}
use libgpiod.LineRequest.{LineRequest, cleared, offsets_equal, reconfigure, reconfigure_lines}

offsets_equal→eq : (xs ys : List ℕ) → offsets_equal xs ys ≡ true → xs ≡ ys
unfolding offsets_equal
offsets_equal→eq [] [] h = refl
offsets_equal→eq [] (y ∷ ys) h = cc
offsets_equal→eq (x ∷ xs) [] h = cc
offsets_equal→eq (x ∷ xs) (y ∷ ys) h = ground (arith, offsets_equal→eq xs ys)

offsets_equal_self : (xs : List ℕ) → offsets_equal xs xs ≡ true
unfolding offsets_equal
offsets_equal_self [] = refl
offsets_equal_self (x ∷ xs) = ground (arith, offsets_equal_self xs)

module _ (kernel : Kernel) where
  open kernel use {World, set_config}

  -- A config that translates is handed to the kernel exactly when its offsets are the request's, in
  -- the same order; otherwise the call fails with EINVAL and the kernel is not asked, also where
  -- the config has a line too many, which gpiod.h says is ignored, or one too few, which it says
  -- takes defaults. What the
  -- kernel is handed gives line k of the request the flags of the config's settings for it.
  pub reconfigure_lines_lem :
      (w : World) (r : LineRequest) (c : LineConfig) (uapi : V2LineRequest) (k : ℕ)
      (q : PerLineConfig)
      → to_uapi c cleared ≡ ok uapi
      → get_elem? c.line_configs k ≡ some q
      → ((config_offsets c ≡ r.offsets)
          × (reconfigure_lines kernel w r (some c)
              ≡ ((set_config w r.fd uapi.config).0, gpiod_ioctl (set_config w r.fd uapi.config).1))
          × (line_flags uapi.config k ≡ make_kernel_flags q.node.settings))
        ⊎ ((config_offsets c ≢ r.offsets)
            × (reconfigure_lines kernel w r (some c) ≡ (w, err einval)))
  unfolding reconfigure_lines reconfigure
  reconfigure_lines_lem w r c uapi k q h g =
      elim (Bool-cases (offsets_equal r.offsets uapi.offsets)) [
        | inl e ↦ inl (
          sym (offsets_equal→eq r.offsets uapi.offsets e ∙ same),
          rw (h, reconfigure_lines) (rw (e, reconfigure)),
          to_uapi-flags c cleared h k q g,
        )
        | inr e ↦ inr (differ e, rw (h, reconfigure_lines) (rw (e, reconfigure)))
      ]
    where
      same : uapi.offsets ≡ config_offsets c
      same = (to_uapi-shape c cleared h).0

      differ : offsets_equal r.offsets uapi.offsets ≡ false → config_offsets c ≢ r.offsets
      differ e g = cc (offsets_equal_self r.offsets, rw (same ∙ g) at e)
