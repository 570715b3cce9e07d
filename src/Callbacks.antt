-- ===== src/Callbacks.antt =====
-- network_callbacks.rs: what the queue's callbacks send to the IDE and to the gossip of the peers.
-- Whether an attempt to emit to the IDE succeeds is an argument.
use shario.Prelude.{
  ℕ, zero, suc, ◌+◌, ◌≤◌, Bool, true, false, Option, none, some, List, [], ◌∷◌, ◌++◌, ◌≡◌, sym, ap,
  All, ◌∙◌, arith, if◌then◌else◌, Bool-cases, inl, inr,
}
use shario.Types.{NetworkAdd, Remove, NetworkOp, add, remove, IdeAddConfirmed}
use shario.Queue.State.{
  Call, network_added, network_removed, ide_add_confirmed, ide_added, ide_removed,
}

-- The events that the IDE's socket receives.
pub data Message : Type 0 where
  network_add : NetworkAdd → Message
  network_remove : Remove → Message
  ide_add_complete : NetworkAdd → Message
  add_confirmed : IdeAddConfirmed → Message

-- What a callback hands to the task that broadcasts, and what it emits.
unfoldable pub sent_by : Call → List NetworkOp
sent_by (network_added op) = []
sent_by (network_removed op) = []
sent_by (ide_add_confirmed op) = []
sent_by (ide_added op_broadcast op_local) = add op_broadcast ∷ []
sent_by (ide_removed op) = remove op ∷ []

unfoldable pub emitted_by : Call → List Message
emitted_by (network_added op) = network_add op ∷ []
emitted_by (network_removed op) = network_remove op ∷ []
emitted_by (ide_add_confirmed op) = add_confirmed op ∷ []
emitted_by (ide_added op_broadcast op_local) = ide_add_complete op_local ∷ []
emitted_by (ide_removed op) = []

unfoldable pub broadcasts : List Call → List NetworkOp
unfolding sent_by
broadcasts [] = []
broadcasts (c ∷ calls) = sent_by c ++ broadcasts calls

-- The loop around `emit`, from an attempt on and on fuel: the attempt that succeeds.
unfoldable pub emit_until : (ℕ → Bool) → ℕ → ℕ → Option ℕ
emit_until accepted zero attempt = none
emit_until accepted (suc fuel) attempt =
    let later = emit_until accepted fuel (attempt + 1) in
    if accepted attempt then some attempt else later

pub broadcasts-quiet :
    (calls : List Call) (c : Call)
    → sent_by c ≡ []
    → broadcasts (calls ++ c ∷ []) ≡ broadcasts calls
unfolding broadcasts
broadcasts-quiet [] c e = ap (λ x. x ++ []) e
broadcasts-quiet (d ∷ calls) c e = ap (λ x. sent_by d ++ x) (broadcasts-quiet calls c e)

-- The attempts from one on.
abbrev pub attempts : ℕ → ℕ → List ℕ
attempts attempt zero = []
attempts attempt (suc n) = attempt ∷ attempts (attempt + 1) n

next_attempt : (a k : ℕ) → a + suc k ≡ (a + 1) + k
next_attempt a k = omega arith

add_zero : (a : ℕ) → a + 0 ≡ a
add_zero a = omega arith

-- Where some attempt to emit succeeds, the loop of a callback ends, at the first that does: it does not
-- give up before, and does not emit after it.
pub emit_until-first :
    (accepted : ℕ → Bool) (n attempt : ℕ)
    → accepted (attempt + n) ≡ true
    → (k : ℕ) × (emit_until accepted (suc n) attempt ≡ some (attempt + k))
      × (k ≤ n)
      × (accepted (attempt + k) ≡ true)
      × All (λ i. accepted i ≡ false) (attempts attempt k)
unfolding emit_until
emit_until-first accepted zero attempt e =
    let now : accepted attempt ≡ true = ap accepted (sym (add_zero attempt)) ∙ e in
    (0, rw now (ap some (sym (add_zero attempt))), omega arith, e, tt)
emit_until-first accepted (suc n) attempt e =
    let (k, ends, le, succeeds, failed) =
      emit_until-first accepted n (attempt + 1) (ap accepted (sym (next_attempt attempt n)) ∙ e) in
    elim (Bool-cases (accepted attempt)) [
      | inl now ↦ (
        0,
        rw now (ap some (sym (add_zero attempt))),
        omega arith,
        ap accepted (add_zero attempt) ∙ now,
        tt,
      )
      | inr fails ↦ (
        suc k,
        rw fails (ends ∙ ap some (sym (next_attempt attempt k))),
        omega (arith, le),
        ap accepted (next_attempt attempt k) ∙ succeeds,
        (fails, failed),
      )
    ]
