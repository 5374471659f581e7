-- ===== src/Manager/Fencing.antt =====
-- handleCheckpointRequest: the transactions under the fencing token.
use libvegas.Base.{
  Bool, true, false, List, [], ◌∷◌, Option, none, some, String, ◌≡◌, refl, ◌∙◌, sym, ap,
  if◌then◌else◌,
}
use libvegas.Etcd.{Etcd, EtcdLaws, Condition, holds, written}
use libvegas.Manager.Checkpoint.{try_conditions}

module _ {K : Type 0} (etcd : Etcd K) (read : K → String → Option String)
    (laws : EtcdLaws etcd read) (between : Condition → K → K) (puts : List (String × String)) where
  -- How the transactions go. Each is tested on the store as it is when its turn comes; one whose
  -- condition does not hold leaves the store as it was, and the first whose condition holds writes
  -- the puts and is the last.
  pub data Tried : List Condition → K → Option Bool × K → Type 0 where
    none_left : {s : K} → Tried [] s (some false, s)
    failing :
        {c : Condition} {conds : List Condition} {s s' : K}
        → etcd.commit c puts (between c s) ≡ (none, s')
        → Tried (c ∷ conds) s (none, s')
    holding :
        {c : Condition} {conds : List Condition} {s s' : K}
        → holds (read (between c s)) c ≡ true
        → ((key : String) → read s' key ≡ written puts (read (between c s)) key)
        → Tried (c ∷ conds) s (some true, s')
    refused :
        {c : Condition} {conds : List Condition} {s u : K} {r : Option Bool × K}
        → holds (read (between c s)) c ≡ false
        → ((key : String) → read u key ≡ read (between c s) key)
        → Tried conds u r
        → Tried (c ∷ conds) s r

  Tried-step :
      (c : Condition) (conds : List Condition) (s : K) (next tried : Option Bool × K)
      → etcd.commit c puts (between c s) ≡ tried
      → Tried conds tried.1 next
      → Tried (c ∷ conds) s (elim tried.0 as (λ _. Option Bool × K) [
        | none ↦ tried
        | some succeeded ↦ if succeeded then tried else next
      ])
  Tried-step c conds s next (none, s') e rest = failing e
  Tried-step c conds s next (some true, s') e rest =
      holding (sym (laws.tested c puts (between c s) true (ap (λ x. x.0) e))) λ key.
        ap (λ x. read x.1 key) (sym e) ∙ laws.applied c puts (between c s) (ap (λ x. x.0) e) key
  Tried-step c conds s next (some false, s') e rest =
      refused (sym (laws.tested c puts (between c s) false (ap (λ x. x.0) e)))
        (λ key.
          ap (λ x. read x.1 key) (sym e) ∙ laws.refused c puts (between c s) (ap (λ x. x.0) e) key)
        rest

  pub try_conditions-Tried :
      (conds : List Condition) (s : K) → Tried conds s (try_conditions etcd between conds puts s)
  unfolding try_conditions
  try_conditions-Tried [] s = none_left
  try_conditions-Tried (c ∷ conds) s =
      Tried-step c conds s _ (etcd.commit c puts (between c s)) refl
        (try_conditions-Tried conds (etcd.commit c puts (between c s)).1)
