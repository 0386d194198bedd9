-- ===== src/Cosign/Window.antt =====
-- coordinator/src/substrate/cosign.rs: when `potentially_cosign_block` has a block cosigned.
use serai.Common.{
  ℕ, zero, suc, ◌-◌, ◌<◌, ◌≡◌, refl, sym, ap, ◌∙◌, Bool, true, false, not, ◌&&◌, ◌||◌, Option, none,
  some, arith, ◌==◌, ltb, if◌then◌else◌, nat_eq, ◌>>◌, pure, modify, Ensures, Ensures-inv,
  Ensures-intro, Ensures->>=,
}
use serai.Cosign.{
  HasEvents, SeraiError, Serai, Db, block_has_events, is_no, is_key_gen, is_maximally_latent,
  potentially_cosign_block, follow_cosigned, set_skipped_cosign, in_window, after_window,
  latest_cosigned_block, set_latest, set_intended_cosign,
}
use serai.Cosign.Events.{
  Same, Untouched, Untouched-trans, Found, IsCached, HasKind, block_has_events_lem,
}

-- Whether a block is to be cosigned: in the window if it generates keys, and after it if it has
-- events or is as late as a skipped block allows.
abbrev pub triggers : ℕ → Option ℕ → ℕ → HasEvents → Bool
triggers window skipped n e =
    not (n == 0)
    && (if ltb n window then is_key_gen e else (is_maximally_latent n skipped || not (is_no e)))

-- What is recorded as skipped with it.
abbrev pub carried : ℕ → Option ℕ → ℕ → Option ℕ
carried window none n = none
carried window (some skipped) n = if ltb n window && ltb n skipped then some n else none

module _ (serai : Serai) where
  abbrev pub Decided : ℕ → Option ℕ → ℕ → Db → Bool → Db → Type 0
  Decided window skipped n s r t =
      ((e : HasEvents) × HasKind serai n e × (triggers window skipped n e ≡ r))
      × IsCached serai t
      × Untouched s t
      × (t.intended_cosign ≡ (if r then some (n, carried window skipped n) else s.intended_cosign))

  in_window_lem :
      (window : ℕ) (skipped : Option ℕ) (n : ℕ) (e : HasEvents) (s : Db)
      → ltb (suc n) window ≡ true
      → HasKind serai (suc n) e
      → IsCached serai s
      → Ensures (Decided window skipped (suc n) s) (in_window (suc n) skipped e s)
  unfolding set_skipped_cosign
  in_window_lem window none n HasEvents.key_gen s early k c =
      ((HasEvents.key_gen, k, ground (arith, early)), c, (refl, refl), refl)
  in_window_lem window (some skipped) n HasEvents.key_gen s early k c =
      carries (ltb (suc n) skipped) refl
    where
      carries :
          (above : Bool)
          → ltb (suc n) skipped ≡ above
          → Ensures (Decided window (some skipped) (suc n) s) (
              (modify (set_intended_cosign (suc n))
                  >> (if above then set_skipped_cosign (suc n) else pure tt)
                  >> pure true)
                s)
      carries true h =
          ((HasEvents.key_gen, k, ground (arith, early)), c, (refl, refl), ground (arith, early, h))
      carries false h =
          ((HasEvents.key_gen, k, ground (arith, early)), c, (refl, refl), ground (arith, early, h))
  in_window_lem window skipped n HasEvents.yes s early k c =
      ((HasEvents.yes, k, ground (arith, early)), c, (refl, refl), refl)
  in_window_lem window skipped n HasEvents.no s early k c =
      ((HasEvents.no, k, ground (arith, early)), c, (refl, refl), refl)

  after_window_lem :
      (window : ℕ) (skipped : Option ℕ) (n : ℕ) (e : HasEvents) (s : Db)
      → ltb (suc n) window ≡ false
      → HasKind serai (suc n) e
      → IsCached serai s
      → Ensures (Decided window skipped (suc n) s) (after_window (suc n) skipped e s)
  after_window_lem window skipped n e s late k c =
      chosen (is_maximally_latent (suc n) skipped || not (is_no e)) refl
    where
      late_carried : (o : Option ℕ) → carried window o (suc n) ≡ none
      late_carried none = refl
      late_carried (some j) = ground (arith, late)

      chosen :
          (due : Bool)
          → (is_maximally_latent (suc n) skipped || not (is_no e)) ≡ due
          → Ensures {E = SeraiError}
              (Decided window skipped (suc n) s)
              ((if due then (modify (set_intended_cosign (suc n)) >> pure true) else pure false) s)
      chosen true h = (
        (e, k, ground (arith, late, h)),
        c,
        (refl, refl),
        ap (λ o. some (suc n, o)) (sym (late_carried skipped)),
      )
      chosen false h = ((e, k, ground (arith, late, h)), c, (refl, refl), refl)

  window_lem :
      (window : ℕ) (skipped : Option ℕ) (n : ℕ) (e : HasEvents) (s : Db)
      → HasKind serai (suc n) e
      → IsCached serai s
      → Ensures (Decided window skipped (suc n) s) (
          (if ltb (suc n) window
              then in_window (suc n) skipped e
              else after_window (suc n) skipped e)
            s)
  window_lem window skipped n e s k c = chosen (ltb (suc n) window) refl
    where
      chosen :
          (early : Bool)
          → ltb (suc n) window ≡ early
          → Ensures
              (Decided window skipped (suc n) s)
              ((if early then in_window (suc n) skipped e else after_window (suc n) skipped e) s)
      chosen true h = in_window_lem window skipped n e s h k c
      chosen false h = after_window_lem window skipped n e s h k c

  follow_cosigned-IsCached :
      (n : ℕ) (e : HasEvents) (s : Db)
      → IsCached serai s
      → IsCached serai (follow_cosigned n e s) × Same s (follow_cosigned n e s)
  follow_cosigned-IsCached n e s c = followed (is_no e && (latest_cosigned_block s == n - 1))
    where
      followed :
          (b : Bool)
          → IsCached serai (if b then set_latest n s else s)
            × Same s (if b then set_latest n s else s)
      followed true = (c, (refl, (refl, refl)))
      followed false = (c, (refl, (refl, refl)))

  pub potentially_cosign_block_lem :
      (window : ℕ) (skipped : Option ℕ) (n : ℕ) (s : Db)
      → 0 < n
      → IsCached serai s
      → Ensures (Decided window skipped n s) (potentially_cosign_block serai n skipped window s)
  unfolding potentially_cosign_block
  potentially_cosign_block_lem window skipped zero s positive c = absurd (ground (arith, positive))
  potentially_cosign_block_lem window skipped (suc n) s positive c =
      Ensures->>= (Found serai (suc n) s) (Decided window skipped (suc n) s)
        (block_has_events serai (suc n)) _ s (block_has_events_lem serai (suc n) s c)
        (λ e t (k, c', (i, f)).
          let u : Db = follow_cosigned (suc n) e t in
          let (c'', (i', f')) = follow_cosigned-IsCached (suc n) e t c' in
          Ensures-intro (Decided window skipped (suc n) s)
            ((if ltb (suc n) window
                then in_window (suc n) skipped e
                else after_window (suc n) skipped e)
              u)
            (λ r v went.
              let (kind, cached, from, intended) =
                Ensures-inv (Decided window skipped (suc n) u) _ r v
                  (window_lem window skipped n e u k c'') went in
              (
                kind,
                cached,
                Untouched-trans s u v (Untouched-trans s t u f f') from,
                intended
                    ∙ ap (λ o. if r then some (suc n, carried window skipped (suc n)) else o)
                        (i' ∙ i),
              )))
