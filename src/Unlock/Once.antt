-- ===== src/Unlock/Once.antt =====
-- A sign-in code unlocks once: backend/handlers/secrets_unlock.go.
use Prim.Native.String.{len}
use commitkube.Base.{
  ◌∙◌, ◌+◌, ◌-◌, ap, ℕ, ◌≤◌, ◌/◌, ◌≡◌, refl, String, Bool, true, false, not, ◌||◌, Option, none,
  some, List, [], ◌∷◌, ◌==◌, ◌=s◌, if◌then◌else◌, clean, arith,
}
use commitkube.Tokens.{second}
use commitkube.Vault.Factor.{find_step, steps, period}
use commitkube.Unlock.Ticket.{Person, State, last_used, mark_used, use_step, check_sign_in_code}

last_used-mark_used :
    (uid who step : ℕ) (m : List (ℕ × ℕ))
    → last_used uid (mark_used who step m) ≡ (if who == uid then step else last_used uid m)
unfolding last_used mark_used
last_used-mark_used uid who step [] = ground arith
last_used-mark_used uid who step ((i, s) ∷ m) = ground (arith, last_used-mark_used uid who step m)

-- The last window of a person never goes back.
last_used-use_step :
    (uid who : ℕ) (o : Option ℕ) (s : State)
    → last_used uid s.used_steps ≤ last_used uid (use_step who o s).1.used_steps
unfolding use_step
last_used-use_step uid who none s = omega arith
last_used-use_step uid who (some step) s =
    ground (arith, last_used-mark_used uid who step s.used_steps)

used-use_step :
    (uid : ℕ) (o : Option ℕ) (s : State)
    → (use_step uid o s).0 ≡ true
    → (step : ℕ) × ((o ≡ some step) × (last_used uid (use_step uid o s).1.used_steps ≡ step))
unfolding use_step
used-use_step uid none s h = absurd (ground arith)
used-use_step uid (some step) s h =
    (step, (refl, ground (arith, last_used-mark_used uid uid step s.used_steps)))

refused-use_step :
    (uid step : ℕ) (s : State)
    → step ≤ last_used uid s.used_steps
    → (use_step uid (some step) s).0 ≡ false
unfolding use_step
refused-use_step uid step s h = ground arith

module _ (totp : String → ℕ → Option String) where
  abbrev window_of : ℕ → Person → String → Option ℕ
  window_of now p code = find_step (λ x. x) totp p.mfa_secret (clean code) (steps now)

  last_used-check :
      (uid now : ℕ) (p : Person) (code : String) (s : State)
      → last_used uid s.used_steps
        ≤ last_used uid (check_sign_in_code totp now p code s).1.used_steps
  unfolding check_sign_in_code
  last_used-check uid now p code s =
      ground (arith, last_used-use_step uid p.id (window_of now p code) s)

  -- Any checks of any codes, in the order in which they take the lock.
  pub data Checks : State → State → Type 0 where
    done : {s : State} → Checks s s
    check :
        {s s' : State} (now : ℕ) (p : Person) (code : String)
        → Checks (check_sign_in_code totp now p code s).1 s'
        → Checks s s'

  last_used-Checks :
      {s s' : State} (uid : ℕ)
      → Checks s s'
      → last_used uid s.used_steps ≤ last_used uid s'.used_steps
  last_used-Checks uid done = omega arith
  last_used-Checks {s} uid (check now p code rest) =
      omega (arith, last_used-check uid now p code s, last_used-Checks uid rest)

  accepted-check :
      (now : ℕ) (p : Person) (code : String) (s : State)
      → (check_sign_in_code totp now p code s).0 ≡ true
      → (step : ℕ) × ((window_of now p code ≡ some step)
          × (last_used p.id (check_sign_in_code totp now p code s).1.used_steps ≡ step))
  unfolding check_sign_in_code
  accepted-check now p code s h = at_head (not (len (clean code) == 6) || p.mfa_secret =s "") h
    where
      at_head :
          (b : Bool)
          → (if◌then◌else◌ {A = Bool × State} b
              (false, s)
              (use_step p.id (window_of now p code) s)).0
            ≡ true
          → (step : ℕ) × ((window_of now p code ≡ some step)
              × (last_used p.id
                    (if◌then◌else◌ {A = Bool × State} b
                      (false, s)
                      (use_step p.id (window_of now p code) s)).1.used_steps
                  ≡ step))
      at_head true k = absurd (ground arith)
      at_head false k = used-use_step p.id (window_of now p code) s k

  refused-check :
      (now step : ℕ) (p : Person) (code : String) (s : State)
      → window_of now p code ≡ some step
      → step ≤ last_used p.id s.used_steps
      → (check_sign_in_code totp now p code s).0 ≡ false
  unfolding check_sign_in_code
  refused-check now step p code s found late =
      at_head (not (len (clean code) == 6) || p.mfa_secret =s "")
    where
      at_head :
          (b : Bool)
          → (if◌then◌else◌ {A = Bool × State} b
              (false, s)
              (use_step p.id (window_of now p code) s)).0
            ≡ false
      at_head true = refl
      at_head false = rw found (refused-use_step p.id step s late)

  same_window :
      (now later : ℕ) (p : Person) (code : String)
      → later / second / period ≡ now / second / period
      → window_of later p code ≡ window_of now p code
  unfolding steps
  same_window now later p code same =
      ap (λ (t : ℕ). find_step (λ x. x) totp p.mfa_secret (clean code) ((t - 1) ∷ t ∷ (t + 1) ∷ []))
        same

  -- A sign-in code that unlocked does not unlock again in the same half minute, whatever other
  -- checks come between.
  pub check_sign_in_code-once :
      (now later : ℕ) (p : Person) (code : String) (s s' : State)
      → later / second / period ≡ now / second / period
      → (check_sign_in_code totp now p code s).0 ≡ true
      → Checks (check_sign_in_code totp now p code s).1 s'
      → (check_sign_in_code totp later p code s').0 ≡ false
  check_sign_in_code-once now later p code s s' same took between =
      let (step, (found, used)) = accepted-check now p code s took in
      refused-check later step p code s' (same_window now later p code same ∙ found)
        (omega (arith, used, last_used-Checks p.id between))
