-- ===== src/Discovery/Kept.antt =====
-- The invariant of the lineage, and the updates of single entries.
use libvegas.Base.{
  ℕ, ◌≤◌, ◌≡◌, ◌≢◌, refl, ◌∙◌, sym, ap, subst, [], ◌∷◌, Option, none, some, String, if◌then◌else◌,
  nat_eq, string_eq, ◌==◌, inl, inr, Option-cases, Bool-cases, arith,
}
use mathlib.Core.Logic.Or
use mathlib.Core.List.{Mem, mem-cons, not-mem-nil}
use libvegas.Base.Map.{Map, lookup, insert, lookup-insert, lookup-insert_self, beq_eq}
use libvegas.Messages.{Shard}
use libvegas.Discovery.{ShardDiscoveryService, Entry, add_entry, set_entry}

abbrev pub IsEntry : Map ℕ Entry → ℕ → Type 0
IsEntry entries a = (x : Entry) × (lookup a entries ≡ some x)

-- An entry of a shard that was listed.
abbrev pub IsListed : Map ℕ Entry → ℕ → Type 0
IsListed entries a = (x : Entry) × (lookup a entries ≡ some x) × (x.shard ≢ none)

abbrev pub AreListed : Map ℕ Entry → Map String ℕ → Type 0
AreListed entries [] = Unit {0}
AreListed entries ((k, a) ∷ rest) = IsListed entries a × AreListed entries rest

-- Every shard has the entry of a listed shard, and new entries have addresses of their own.
pub record IsKept (d : ShardDiscoveryService) : Type 0 where
  pub kept : AreListed d.entries d.shards
  pub fresh : (a : ℕ) → d.next_entry ≤ a → lookup a d.entries ≡ none

abbrev pub IsKnown : ShardDiscoveryService → String → Type 0
IsKnown d k = (a : ℕ) × (lookup k d.shards ≡ some a)

-- A later state, with every entry and every shard of the earlier one.
pub record Grown (d d' : ShardDiscoveryService) : Type 0 where
  pub valid : IsKept d'
  pub entries : (a : ℕ) → IsEntry d.entries a → IsEntry d'.entries a
  pub listed : (a : ℕ) → IsListed d.entries a → IsListed d'.entries a
  pub shards : (k : String) → IsKnown d k → IsKnown d' k

pub Grown-refl : (d : ShardDiscoveryService) → IsKept d → Grown d d
Grown-refl d h = record { valid = h; entries = λ a k. k; listed = λ a k. k; shards = λ a k. k }

pub Grown-trans : (d e f : ShardDiscoveryService) → Grown d e → Grown e f → Grown d f
Grown-trans d e f g h = record {
  valid = h.valid;
  entries = λ a k. h.entries a (g.entries a k);
  listed = λ a k. h.listed a (g.listed a k);
  shards = λ a k. h.shards a (g.shards a k);
}

weaken-AreListed :
    (entries after : Map ℕ Entry) (shards : Map String ℕ)
    → ((a : ℕ) → IsListed entries a → IsListed after a)
    → AreListed entries shards
    → AreListed after shards
weaken-AreListed entries after [] up h = tt
weaken-AreListed entries after ((k, a) ∷ rest) up (h, t) =
    (up a h, weaken-AreListed entries after rest up t)

insert-AreListed :
    (entries : Map ℕ Entry) (k : String) (a : ℕ) (shards : Map String ℕ)
    → IsListed entries a
    → AreListed entries shards
    → AreListed entries (insert k a shards)
unfolding insert
insert-AreListed entries k a [] h t = (h, tt)
insert-AreListed entries k a ((j, b) ∷ rest) h (i, t) = elim (Bool-cases (j == k)) [
  | inl same ↦ rw same (h, t)
  | inr differ ↦ rw differ (i, insert-AreListed entries k a rest h t)
]

lookup_first :
    (k j : String) (b : ℕ) (rest : Map String ℕ)
    → lookup k ((j, b) ∷ rest) ≡ (if j == k then some b else lookup k rest)
unfolding lookup
lookup_first k j b rest = refl

pub lookup-AreListed :
    (entries : Map ℕ Entry) (k : String) (a : ℕ) (shards : Map String ℕ)
    → AreListed entries shards
    → lookup k shards ≡ some a
    → IsListed entries a
unfolding lookup
lookup-AreListed entries k a [] t e = absurd (cc e)
lookup-AreListed entries k a ((j, b) ∷ rest) (h, t) e = elim (Bool-cases (j == k)) [
  | inl same ↦
      let found : some b ≡ some a = sym (lookup_first k j b rest ∙ rw same refl) ∙ e in
      let here : b ≡ a = cc found in subst (IsListed entries) here h
  | inr differ ↦
      lookup-AreListed entries k a rest t (sym (lookup_first k j b rest ∙ rw differ refl) ∙ e)
]

-- The shard under an address.
abbrev shard_at : Map ℕ Entry → ℕ → Option Shard
shard_at entries a = elim (lookup a entries) [ none ↦ none | some x ↦ x.shard ]

listed_shard : (entries : Map ℕ Entry) (a : ℕ) → IsListed entries a → shard_at entries a ≢ none
listed_shard entries a (x, e, s) = rw (e, shard_at) s

shard_entry : (entries : Map ℕ Entry) (a : ℕ) → shard_at entries a ≢ none → IsListed entries a
shard_entry entries a h = elim (Option-cases (lookup a entries)) [
  | inl absent ↦ absurd (h (rw (absent, shard_at) refl))
  | inr (x, e) ↦ (x, e, λ gone. h (rw (e, shard_at) gone))
]

member_shard :
    (entries : Map ℕ Entry) (shards : Map String ℕ)
    → AreListed entries shards
    → (k : String) (a : ℕ) → Mem (k, a) shards
    → shard_at entries a ≢ none
member_shard entries [] t k a m = absurd (not-mem-nil m)
member_shard entries ((j, b) ∷ rest) (h, t) k a m =
    Or.elim (hlevel) (mem-cons.0 m)
      (λ e.
        subst (λ c. shard_at entries c ≢ none) (sym (ap (λ p. p.1) e)) (listed_shard entries b h))
      (member_shard entries rest t k a)

pub member-AreListed :
    (entries : Map ℕ Entry) (shards : Map String ℕ)
    → AreListed entries shards
    → (k : String) (a : ℕ) → Mem (k, a) shards
    → IsListed entries a
member-AreListed entries shards t k a m =
    shard_entry entries a (member_shard entries shards t k a m)

insert-IsEntry : (a b : ℕ) (x : Entry) (es : Map ℕ Entry) → IsEntry es b → IsEntry (insert a x es) b
insert-IsEntry a b x es (y, h) = elim (Bool-cases (a == b)) [
  | inl same ↦ (x, lookup-insert a b x es ∙ rw same refl)
  | inr differ ↦ (y, lookup-insert a b x es ∙ rw differ h)
]

insert-IsListed :
    (a b : ℕ) (x : Entry) (es : Map ℕ Entry)
    → (IsListed es a → x.shard ≢ none)
    → IsListed es b
    → IsListed (insert a x es) b
insert-IsListed a b x es keep (y, h, s) = elim (Bool-cases (a == b)) [
  | inl same ↦
      let here : b ≡ a = sym (beq_eq a b same) in
      (x, lookup-insert a b x es ∙ rw same refl, keep (subst (IsListed es) here (y, h, s)))
  | inr differ ↦ (y, lookup-insert a b x es ∙ rw differ h, s)
]

-- An entry that is there is replaced by one that has a shard if it had one.
pub set_entry-Grown :
    (d : ShardDiscoveryService) (a : ℕ) (x : Entry)
    → IsKept d
    → IsEntry d.entries a
    → (IsListed d.entries a → x.shard ≢ none)
    → Grown d (set_entry d a x)
unfolding set_entry
set_entry-Grown d a x h (old, there) keep = record {
  valid = record {
    kept = weaken-AreListed d.entries _ d.shards (λ b. insert-IsListed a b x d.entries keep) h.kept;
    fresh = λ b above. elim (Bool-cases (a == b)) [
      | inl same ↦
          let here : a ≡ b = beq_eq a b same in
          absurd (cc (sym there ∙ ap (λ c. lookup c d.entries) here ∙ h.fresh b above))
      | inr differ ↦ lookup-insert a b x d.entries ∙ rw differ (h.fresh b above)
    ];
  };
  entries = λ b. insert-IsEntry a b x d.entries;
  listed = λ b. insert-IsListed a b x d.entries keep;
  shards = λ k i. i;
}

pub add_entry-Grown :
    (s : Option Shard) (d : ShardDiscoveryService) → IsKept d → Grown d (add_entry s d).1
unfolding add_entry set_entry
add_entry-Grown s d h =
    let x : Entry = record { shard = s; parents = []; children = [] } in
    let unused = h.fresh d.next_entry (omega arith) in
    let up : (b : ℕ) → IsListed d.entries b → IsListed (insert d.next_entry x d.entries) b =
      λ b. insert-IsListed d.next_entry b x d.entries λ (y, e, _). absurd (cc (sym unused ∙ e)) in
    record {
      valid = record {
        kept = weaken-AreListed d.entries _ d.shards up h.kept;
        fresh = λ b above. elim (Bool-cases (d.next_entry == b)) [
          | inl same ↦
              let here : d.next_entry ≡ b = beq_eq d.next_entry b same in
              absurd (omega (arith, here))
          | inr differ ↦
              lookup-insert d.next_entry b x d.entries ∙ rw differ (h.fresh b (omega arith))
        ];
      };
      entries = λ b. insert-IsEntry d.next_entry b x d.entries;
      listed = up;
      shards = λ k i. i;
    }

pub added_entry :
    (s : Option Shard) (d : ShardDiscoveryService)
    → lookup (add_entry s d).0 (add_entry s d).1.entries
      ≡ some (record { shard = s; parents = []; children = [] })
unfolding add_entry set_entry
added_entry s d =
    lookup-insert_self d.next_entry (record { shard = s; parents = []; children = [] }) d.entries

-- A shard is put under its id.
pub known-Grown :
    (d : ShardDiscoveryService) (k : String) (a : ℕ)
    → IsKept d
    → IsListed d.entries a
    → Grown d (record d { shards = insert k a d.shards })
known-Grown d k a h there = record {
  valid = record { kept = insert-AreListed d.entries k a d.shards there h.kept; fresh = h.fresh };
  entries = λ b e. e;
  listed = λ b e. e;
  shards = λ j (b, e). elim (Bool-cases (k == j)) [
    | inl same ↦ (a, lookup-insert k j a d.shards ∙ rw same refl)
    | inr differ ↦ (b, lookup-insert k j a d.shards ∙ rw differ e)
  ];
}
