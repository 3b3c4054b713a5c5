-- ===== src/Recovery/Wipe.antt =====
-- What a factory reset has done when it is reported as a success.
use recovery_sdx.Base.{
  zero, suc, ◌≡◌, refl, sym, ap, ◌∙◌, inl, inr, true, false, none, some, List, [], ◌∷◌, Bytes,
  arith, Bool-cases, codes, eq_of_some, Among,
}
use recovery_sdx.Base.Int.{ℤ, pos, negsuc, is_nonzero}
use recovery_sdx.Os.{Os}
use recovery_sdx.Roots.Format.{format_root_device}
use recovery_sdx.Roots.Safety.{Formats, format_root_device-Formats}
use recovery_sdx.Recovery.{Disk, get_args}
use recovery_sdx.Recovery.Main.{
  Opt, send_intent, update_package, wipe_data, wipe_cache, invalid, Settings, no_settings,
  set_options, Status, install_success, is_success, State, wipe, wipe_all, act, settled, run, main,
  finish_recovery,
}

-- A reset is asked for, and no package.
pub record AsksForReset (opts : List Opt) : Type 0 where
  pub asked : Among wipe_data opts
  pub no_package : (p : Bytes) → ¬ Among (update_package p) opts

-- Options never take back a wipe.
stays_wiped :
    (o : Settings) (opts : List Opt)
    → o.data_wiped ≡ true
    → o.cache_wiped ≡ true
    → ((set_options o opts).data_wiped ≡ true) × ((set_options o opts).cache_wiped ≡ true)
unfolding set_options
stays_wiped o [] d c = (d, c)
stays_wiped o (send_intent s ∷ opts) d c = stays_wiped _ opts d c
stays_wiped o (update_package s ∷ opts) d c = stays_wiped _ opts d c
stays_wiped o (wipe_data ∷ opts) d c = stays_wiped _ opts refl refl
stays_wiped o (wipe_cache ∷ opts) d c = stays_wiped _ opts d refl
stays_wiped o (invalid ∷ opts) d c = stays_wiped _ opts d c

wiped :
    (o : Settings) (opts : List Opt)
    → Among wipe_data opts
    → ((set_options o opts).data_wiped ≡ true) × ((set_options o opts).cache_wiped ≡ true)
unfolding set_options
wiped o [] h = elim h [ ]
wiped o (wipe_data ∷ opts) h = stays_wiped _ opts refl refl
wiped o (send_intent s ∷ opts) (inl e) = cc
wiped o (send_intent s ∷ opts) (inr h) = wiped _ opts h
wiped o (update_package s ∷ opts) (inl e) = cc
wiped o (update_package s ∷ opts) (inr h) = wiped _ opts h
wiped o (wipe_cache ∷ opts) (inl e) = cc
wiped o (wipe_cache ∷ opts) (inr h) = wiped _ opts h
wiped o (invalid ∷ opts) (inl e) = cc
wiped o (invalid ∷ opts) (inr h) = wiped _ opts h

no_update :
    (o : Settings) (opts : List Opt)
    → o.update ≡ none
    → ((p : Bytes) → ¬ Among (update_package p) opts)
    → (set_options o opts).update ≡ none
unfolding set_options
no_update o [] e h = e
no_update o (send_intent s ∷ opts) e h = no_update _ opts e (λ p k. h p (inr k))
no_update o (update_package s ∷ opts) e h = absurd (h s (inl refl))
no_update o (wipe_data ∷ opts) e h = no_update _ opts e (λ p k. h p (inr k))
no_update o (wipe_cache ∷ opts) e h = no_update _ opts e (λ p k. h p (inr k))
no_update o (invalid ∷ opts) e h = no_update _ opts e (λ p k. h p (inr k))

zero_of : (n : ℤ) → is_nonzero n ≡ false → n ≡ pos 0
zero_of (pos zero) h = refl
zero_of (pos (suc n)) h = ground (arith, h)
zero_of (negsuc n) h = ground (arith, h)

pair_eq : {W : Type 0} (r : ℤ × W) (w : W) → r.0 ≡ pos 0 → r.1 ≡ w → r ≡ (pos 0, w)
pair_eq (n, v) w p q = ap (λ m. (m, v)) p ∙ ap (λ u. (pos 0, u)) q

module _ {W : Type 0} (os : Os W) (disk : Disk W) (getopt : List Bytes → List Opt)
    (install_package : Bytes → W → Status × W) (prompt_and_wait : State W → State W) where
  wipe-Formats :
      (root : Bytes) (r : Status × W) (w : W)
      → wipe os disk getopt install_package prompt_and_wait true root r ≡ (install_success, w)
      → (r.0 ≡ install_success) × Formats os root r.1 w
  unfolding wipe
  wipe-Formats root (status, v) w h =
      elim (Bool-cases (is_nonzero (format_root_device os root v).0)) [
        | inl t ↦ absurd (ground (arith, ap (λ x. x.0) (rw t at h)))
        | inr t ↦
            let h' = rw t at h in
            (
              ap (λ x. x.0) h',
              format_root_device-Formats os root v w
                  (pair_eq (format_root_device os root v) w (zero_of _ t) (ap (λ x. x.1) h')),
            )
      ]

  -- What is done with the settings of a reset, and leads to `done`.
  wipe_all-Formats :
      (o : Settings) (w : W) (done : Status × W)
      → o.data_wiped ≡ true
      → o.cache_wiped ≡ true
      → wipe_all os disk getopt install_package prompt_and_wait o w ≡ done
      → done.0 ≡ install_success
      → (v : W) × Formats os (codes "DATA:") w v × Formats os (codes "CACHE:") v done.1
  unfolding wipe_all
  wipe_all-Formats o w (status, w') d c h e =
      let first =
        wipe os disk getopt install_package prompt_and_wait true (codes "DATA:")
          (install_success, w) in
      let second = wipe-Formats (codes "CACHE:") first w' (rw (d, c) at h ∙ ap (λ x. (x, w')) e) in
      let before =
        wipe-Formats (codes "DATA:") (install_success, w) first.1
          (ap (λ x. (x, first.1)) second.0) in
      (first.1, before.1, second.1)

  act-reset :
      (o : Settings) (w : W)
      → o.update ≡ none
      → o.data_wiped ≡ true
      → act os disk getopt install_package prompt_and_wait o w
        ≡ wipe_all os disk getopt install_package prompt_and_wait o w
  unfolding act
  act-reset o w u d = rw (u, d) refl

  -- Let the arguments that are found ask for a wipe of the data, and for no package. If `main` then
  -- ends with a success, the data was formatted, and the cache behind it: each a root of the table whose
  -- volume was unmounted, where one was found, and whose device fformat, or the erasing of its MTD
  -- partition, was then run on with success. All that followed is `finish_recovery`.
  pub main-reset :
      (argv args : List Bytes) (w w₁ : W) (s : State W)
      → get_args os disk argv w ≡ (some args, w₁)
      → AsksForReset (getopt args)
      → main os disk getopt install_package prompt_and_wait argv w ≡ some (install_success, s)
      → (v : W) × (v' : W) × Formats os (codes "DATA:") w₁ v
        × Formats os (codes "CACHE:") v v'
        × (s
            ≡ finish_recovery os disk
                (set_options no_settings (getopt args)).intent
                (record { sys = v'; tmplog_offset = 0 }))
  unfolding main run settled is_success
  main-reset argv args w w₁ s found asks h =
      let o = set_options no_settings (getopt args) in
      let both = wiped no_settings (getopt args) asks.asked in
      let none_asked = no_update no_settings (getopt args) refl asks.no_package in
      let same = act-reset o w₁ none_asked both.0 in
      let result = eq_of_some (rw (found, same) at h) in
      let done = wipe_all os disk getopt install_package prompt_and_wait o w₁ in
      let status : done.0 ≡ install_success = ap (λ x. x.0) result in
      let (v, data_wiped, cache_wiped) = wipe_all-Formats o w₁ done both.0 both.1 refl status in
      (v, done.1, data_wiped, cache_wiped, sym (rw status at (ap (λ x. x.1) result)))
