-- ===== src/Amend/Execute/Script.antt =====
-- Which scripts run to their end, and where the others stop.
use recovery_sdx.Base.{
  ◌<◌, inl, inr, List, [], ◌∷◌, ◌≡◌, refl, ap, subst, ◌↔◌, arith, ltb, Bool-cases,
}
use recovery_sdx.Base.Int.{ℤ, pos}
use recovery_sdx.Amend.Commands.{Run, ok, error, fault}
use recovery_sdx.Amend.Execute.{Command, exec_command, failed_at, exec_command_list, go_on}

-- Every command succeeds, in turn.
pub data Runs {W : Type 0} : List (Command W) → W → W → Type 0 where
  done : (w : W) → Runs [] w w
  next :
      (c : Command W) (cs : List (Command W)) (w w₁ w₂ : W)
      → exec_command c w ≡ (ok tt, w₁)
      → Runs cs w₁ w₂
      → Runs (c ∷ cs) w w₂

-- The commands succeed up to one that fails, and none behind it is run.
pub data Stops {W : Type 0} : List (Command W) → W → ℤ → W → Type 0 where
  on_line :
      (c : Command W) (cs : List (Command W)) (e : ℤ) (w w₁ : W)
      → 0 < c.line
      → exec_command c w ≡ (error e, w₁)
      → Stops (c ∷ cs) w (pos c.line) w₁
  with_result :
      (c : Command W) (cs : List (Command W)) (e : ℤ) (w w₁ : W)
      → c.line ≡ 0
      → exec_command c w ≡ (error e, w₁)
      → Stops (c ∷ cs) w e w₁
  later :
      (c : Command W) (cs : List (Command W)) (e : ℤ) (w w₁ w₂ : W)
      → exec_command c w ≡ (ok tt, w₁)
      → Stops cs w₁ e w₂
      → Stops (c ∷ cs) w e w₂

abbrev number : Run Unit → ℤ
number (error e) = e
number (ok u) = pos 0
number fault = pos 0

module _ {W : Type 0} where
  Runs-cons :
      (c : Command W) (cs : List (Command W)) (w w' : W) (x : Run Unit × W)
      → exec_command c w ≡ x
      → ((w₁ : W) → exec_command_list cs w₁ ≡ (ok tt, w') → Runs cs w₁ w')
      → go_on c.line x (exec_command_list cs) ≡ (ok tt, w')
      → Runs (c ∷ cs) w w'
  Runs-cons c cs w w' (ok u, w₁) e k h = next c cs w w₁ w' e (k w₁ h)
  Runs-cons c cs w w' (error n, w₁) e k h = ground arith
  Runs-cons c cs w w' (fault, w₁) e k h = ground arith

  to_Runs : (cs : List (Command W)) (w w' : W) → exec_command_list cs w ≡ (ok tt, w') → Runs cs w w'
  unfolding exec_command_list
  to_Runs [] w w' h = subst (λ v. Runs [] w v) (ap (λ x. x.1) h) (done w)
  to_Runs (c ∷ cs) w w' h = Runs-cons c cs w w' (exec_command c w) refl (λ w₁. to_Runs cs w₁ w') h

  of_Runs : (cs : List (Command W)) (w w' : W) → Runs cs w w' → exec_command_list cs w ≡ (ok tt, w')
  unfolding exec_command_list
  of_Runs _ _ _ (done w) = refl
  of_Runs _ _ _ (next c cs w w₁ w₂ e r) = rw e (of_Runs cs w₁ w₂ r)

  failed-Stops :
      (c : Command W) (cs : List (Command W)) (e : ℤ) (w w₁ : W)
      → exec_command c w ≡ (error e, w₁)
      → Stops (c ∷ cs) w (failed_at c.line e) w₁
  failed-Stops c cs e w w₁ h = elim (Bool-cases (ltb 0 c.line)) [
    | inl t ↦ rw t (on_line c cs e w w₁ (ground arith) h)
    | inr t ↦ rw t (with_result c cs e w w₁ (ground arith) h)
  ]

  Stops-cons :
      (c : Command W) (cs : List (Command W)) (w w' : W) (n : ℤ) (x : Run Unit × W)
      → exec_command c w ≡ x
      → ((w₁ : W) → exec_command_list cs w₁ ≡ (error n, w') → Stops cs w₁ n w')
      → go_on c.line x (exec_command_list cs) ≡ (error n, w')
      → Stops (c ∷ cs) w n w'
  Stops-cons c cs w w' n (ok u, w₁) e k h = later c cs n w w₁ w' e (k w₁ h)
  Stops-cons c cs w w' n (error m, w₁) e k h =
      subst (λ v. Stops (c ∷ cs) w n v) (ap (λ x. x.1) h)
        (subst (λ v. Stops (c ∷ cs) w v w₁) (ap (λ x. number x.0) h) (failed-Stops c cs m w w₁ e))
  Stops-cons c cs w w' n (fault, w₁) e k h = ground arith

  to_Stops :
      (cs : List (Command W)) (w w' : W) (n : ℤ)
      → exec_command_list cs w ≡ (error n, w')
      → Stops cs w n w'
  unfolding exec_command_list
  to_Stops [] w w' n h = ground arith
  to_Stops (c ∷ cs) w w' n h =
      Stops-cons c cs w w' n (exec_command c w) refl (λ w₁. to_Stops cs w₁ w' n) h

  of_Stops :
      (cs : List (Command W)) (w w' : W) (n : ℤ)
      → Stops cs w n w'
      → exec_command_list cs w ≡ (error n, w')
  unfolding exec_command_list
  of_Stops _ _ _ _ (on_line c cs e w w₁ l h) =
      let at : failed_at c.line e ≡ pos c.line = ground arith in rw (h, at) refl
  of_Stops _ _ _ _ (with_result c cs e w w₁ l h) =
      let at : failed_at c.line e ≡ e = ground arith in rw (h, at) refl
  of_Stops _ _ _ _ (later c cs e w w₁ w₂ h r) = rw h (of_Stops cs w₁ w₂ e r)

  -- A script returns 0 exactly when each of its commands does, in turn. It returns another number
  -- exactly when the commands succeed up to one that fails: the line of that one, or its own
  -- result where it has no line, and no command behind it is run.
  pub exec_command_list_iff :
      (cs : List (Command W)) (w w' : W) (n : ℤ)
      → ((exec_command_list cs w ≡ (ok tt, w')) ↔ Runs cs w w')
        × ((exec_command_list cs w ≡ (error n, w')) ↔ Stops cs w n w')
  exec_command_list_iff cs w w' n =
      ((to_Runs cs w w', of_Runs cs w w'), (to_Stops cs w w' n, of_Stops cs w w' n))
