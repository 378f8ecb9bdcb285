-- ===== src/Chat/Tools/Guard/Advises.antt =====
-- backend/internal/chat/tools/guard.go: what becomes of the failure of a tool.
use mathlib.Core.Path.{subst}
use urara_vision.Base.{
  ◌≡◌, ◌⊎◌, refl, sym, ap, ◌∙◌, inl, inr, Bool, true, Option, none, some, arith, if◌then◌else◌,
  Bool-cases,
}
use urara_vision.Base.Text.{Text}
use urara_vision.Base.Json.{Value}
use urara_vision.Chat.Tools.Backend.{
  Failure, backend_error, deadline_exceeded, other_failure, Outcome, came, went_wrong,
}
use urara_vision.Chat.Tools.Validate.{Checked, fine, validate}
use urara_vision.Chat.Tools.Guard.{advice_for, or_failure, recover, guarded}

-- A failure that no advice can mend.
abbrev pub IsFinal : Failure → Type 0
IsFinal (backend_error e) = e.status ≡ 403
IsFinal deadline_exceeded = ⊥
IsFinal (other_failure t) = Unit

failure_or : Failure → Outcome Value → Failure
failure_or e (came v) = e
failure_or e (went_wrong f) = f

went_wrong-injective :
    {e f : Failure} → ◌≡◌ {A = Outcome Value} (went_wrong e) (went_wrong f) → e ≡ f
unfolding failure_or
went_wrong-injective {e} h = ap (failure_or e) h

advised : (args : Option Value) (e : Failure) → advice_for args e ≡ none → IsFinal e
unfolding advice_for
advised args (backend_error e) h = ground arith
advised args deadline_exceeded h = ground arith
advised args (other_failure t) h = tt

or_failure_lem :
    (f e : Failure) (advice : Option Text)
    → or_failure f advice ≡ went_wrong e
    → (advice ≡ none) × (f ≡ e)
unfolding or_failure
or_failure_lem f e none h = (refl, went_wrong-injective h)
or_failure_lem f e (some a) h = absurd (ground arith)

recover_lem :
    (args : Option Value) (done : Bool) (x : Outcome Value) (e : Failure)
    → recover args done x ≡ went_wrong e
    → (x ≡ went_wrong e) × ((done ≡ true) ⊎ IsFinal e)
unfolding recover or_failure
recover_lem args done (came v) e h = absurd (ground arith)
recover_lem args done (went_wrong f) e h = elim (Bool-cases done) [
  | inl d ↦
      (sym (ap (λ b. if b then went_wrong f else or_failure f (advice_for args f)) d) ∙ h, inl d)
  | inr d ↦
      let q =
        or_failure_lem f e (advice_for args f)
          (sym (ap (λ b. if b then went_wrong f else or_failure f (advice_for args f)) d) ∙ h) in
      (ap went_wrong q.1, inr (subst IsFinal q.1 (advised args f q.0)))
]

-- A tool fails only when its arguments are valid, its run fails with the same failure, and either the
-- turn is over, or access is forbidden, or nothing is known of the failure. All else becomes an
-- answer: in particular invalid arguments, whatever the run would do.
pub guarded_lem :
    (fractional : Text → Bool) (whole_text : Text → Text) (unmarshal : Text → Option Value)
    (tool : Text) (tool_run : Text → Outcome Value) (ctx_done : Bool) (args : Text) (e : Failure)
    → guarded fractional whole_text unmarshal tool tool_run ctx_done args ≡ went_wrong e
    → (validate fractional whole_text unmarshal tool args ≡ fine)
      × (tool_run args ≡ went_wrong e)
      × ((ctx_done ≡ true) ⊎ IsFinal e)
unfolding guarded
guarded_lem fr wt um tool tool_run done args e h = checked_lem (validate fr wt um tool args) refl
  where
    checked_lem :
        (c : Checked)
        → validate fr wt um tool args ≡ c
        → (validate fr wt um tool args ≡ fine)
          × (tool_run args ≡ went_wrong e)
          × ((done ≡ true) ⊎ IsFinal e)
    checked_lem fine q =
        let (a, b) =
          recover_lem (um args) done (tool_run args) e (sym (rw (guarded, q) refl) ∙ h) in
        (q, a, b)
    checked_lem c q = absurd (ground arith)
