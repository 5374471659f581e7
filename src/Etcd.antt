-- ===== src/Etcd.antt =====
-- What the program uses of the etcd client: consumer/kvs.go, with `Txn` and `Get` of clientv3.
-- The store and its calls are parameters; `EtcdLaws` states their documented behaviour.
use Prim.Native.Nat.{Ordering}
use Prim.Native.String.{compare}
use libvegas.Base.{
  Bool, true, false, List, [], ◌∷◌, Option, none, some, String, if◌then◌else◌, string_eq, ◌==◌, ◌≡◌,
  ◌⊎◌,
}

-- clientv3.Compare at CreateRevision 0, at Value "=" and at Value "<"
pub data Condition : Type 0 where
  absent : String → Condition
  equal less : String → String → Condition

-- A failed call gives `none` or `false`; it leaves some store behind.
pub record Etcd (K : Type 0) : Type 0 where
  pub get : String → K → Option (Option String)
  pub put : String → String → K → Bool × K
  pub delete : String → K → Bool × K
  pub commit : Condition → List (String × String) → K → Option Bool × K

-- A condition on a key. One on the value of a key that is not there does not hold.
abbrev pub holds : (String → Option String) → Condition → Bool
holds read (absent key) = elim (read key) [ none ↦ true | some _ ↦ false ]
holds read (equal key v) = elim (read key) [ none ↦ false | some u ↦ u == v ]
holds read (less key v) = elim (read key) [
  | none ↦ false
  | some u ↦ elim (compare u v) [ Ordering.lt ↦ true | _ ↦ false ]
]

-- The pairs written one after another.
abbrev pub written : List (String × String) → (String → Option String) → String → Option String
written [] read key = read key
written ((k, v) ∷ puts) read key = written puts (λ j. if k == j then some v else read j) key

-- `read` is what the store holds; a transaction that answers tests its condition on it, and
-- applies all of its puts or none.
pub record EtcdLaws {K : Type 0} (etcd : Etcd K) (read : K → String → Option String) : Type 0 where
  pub tested :
      (c : Condition) (puts : List (String × String)) (s : K) (b : Bool)
      → (etcd.commit c puts s).0 ≡ some b
      → b ≡ holds (read s) c
  pub applied :
      (c : Condition) (puts : List (String × String)) (s : K)
      → (etcd.commit c puts s).0 ≡ some true
      → (key : String) → read (etcd.commit c puts s).1 key ≡ written puts (read s) key
  pub refused :
      (c : Condition) (puts : List (String × String)) (s : K)
      → (etcd.commit c puts s).0 ≡ some false
      → (key : String) → read (etcd.commit c puts s).1 key ≡ read s key
  -- A call that fails may have been carried out.
  pub unknown :
      (c : Condition) (puts : List (String × String)) (s : K)
      → (etcd.commit c puts s).0 ≡ none
      → ((key : String) → read (etcd.commit c puts s).1 key ≡ read s key)
        ⊎ ((holds (read s) c ≡ true)
            × ((key : String) → read (etcd.commit c puts s).1 key ≡ written puts (read s) key))
