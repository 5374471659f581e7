-- ===== src/Tests/Coding.antt =====
-- An encoding of the messages for the concrete exchanges.
use Prim.Native.Char.{Char, code}
use text.Mathlib.TextBridge.{to_list, of_list, to_list-of_list, of_list-to_list}
use libvegas.Base.{
  ℕ, zero, suc, ◌≡◌, refl, ap, Bool, true, false, List, [], ◌∷◌, Option, none, some, String,
  nat_beq, if◌then◌else◌, length,
}
use libvegas.Base.Int.{ℤ, pos, negsuc}
use libvegas.Http.{Codec, CodecLaws}
use libvegas.Messages.{
  Status, Assignment, AssignRequest, AssignResponse, CheckpointRequest, CheckpointResponse,
}

pub record Coding (A : Type 0) : Type 0 where
  pub enc : A → List Char → List Char
  pub dec : List Char → Option (A × List Char)
  pub law : (a : A) (rest : List Char) → dec (enc a rest) ≡ some (a, rest)

abbrev bind : {A B : Type 0} → Option A → (A → Option B) → Option B
bind none f = none
bind (some a) f = f a

abbrev enc_nat : ℕ → List Char → List Char
enc_nat zero rest = "0" ∷ rest
enc_nat (suc n) rest = "1" ∷ enc_nat n rest

abbrev dec_nat : List Char → Option (ℕ × List Char)
dec_nat [] = none
dec_nat (c ∷ rest) =
    let more = dec_nat rest in
    if nat_beq (code c) b'1' then bind more (λ (n, r). some (suc n, r)) else some (0, rest)

abbrev dec_nat-enc_nat : (n : ℕ) (rest : List Char) → dec_nat (enc_nat n rest) ≡ some (n, rest)
dec_nat-enc_nat zero rest = refl
dec_nat-enc_nat (suc n) rest = rw (dec_nat-enc_nat n rest) refl

abbrev nat : Coding ℕ
nat = record { enc = enc_nat; dec = dec_nat; law = dec_nat-enc_nat }

abbrev iso :
    {A B : Type 0} → (f : A → B) → (g : B → A) → ((a : A) → g (f a) ≡ a) → Coding B → Coding A
iso f g same c = record {
  enc = λ a. c.enc (f a);
  dec = λ cs. bind (c.dec cs) λ (b, rest). some (g b, rest);
  law = λ a rest. rw (c.law (f a) rest) (ap (λ x. some (x, rest)) (same a));
}

abbrev pair : {A B : Type 0} → Coding A → Coding B → Coding (A × B)
pair a b = record {
  enc = λ (x, y) rest. a.enc x (b.enc y rest);
  dec = λ cs. bind (a.dec cs) λ (x, r). bind (b.dec r) λ (y, r'). some ((x, y), r');
  law = λ (x, y) rest. rw (a.law x (b.enc y rest), b.law y rest) refl;
}

module _ {A : Type 0} (c : Coding A) where
  abbrev enc_all : List A → List Char → List Char
  enc_all [] rest = rest
  enc_all (x ∷ xs) rest = c.enc x (enc_all xs rest)

  abbrev dec_all : ℕ → List Char → Option (List A × List Char)
  dec_all zero cs = some ([], cs)
  dec_all (suc n) cs = bind (c.dec cs) λ (x, r). bind (dec_all n r) λ (xs, r'). some (x ∷ xs, r')

  abbrev dec_all-enc_all :
      (xs : List A) (rest : List Char) → dec_all (length xs) (enc_all xs rest) ≡ some (xs, rest)
  dec_all-enc_all [] rest = refl
  dec_all-enc_all (x ∷ xs) rest = rw (c.law x (enc_all xs rest), dec_all-enc_all xs rest) refl

  abbrev list : Coding (List A)
  list = record {
    enc = λ xs rest. enc_nat (length xs) (enc_all xs rest);
    dec = λ cs. bind (dec_nat cs) λ (n, r). dec_all n r;
    law = λ xs rest. rw (dec_nat-enc_nat (length xs) (enc_all xs rest)) (dec_all-enc_all xs rest);
  }

abbrev dec_char : List Char → Option (Char × List Char)
dec_char [] = none
dec_char (c ∷ rest) = some (c, rest)

abbrev char_coding : Coding Char
char_coding = record { enc = λ c rest. c ∷ rest; dec = dec_char; law = λ c rest. refl }

abbrev string : Coding String
string = iso to_list of_list of_list-to_list (list char_coding)

abbrev of_bool : Bool → ℕ
of_bool true = 1
of_bool false = 0

abbrev same_bool : (b : Bool) → nat_beq (of_bool b) 1 ≡ b
same_bool true = refl
same_bool false = refl

abbrev bool : Coding Bool
bool = iso of_bool (λ n. nat_beq n 1) same_bool nat

abbrev of_int : ℤ → Bool × ℕ
of_int (pos n) = (true, n)
of_int (negsuc n) = (false, n)

abbrev to_int : Bool × ℕ → ℤ
to_int (true, n) = pos n
to_int (false, n) = negsuc n

abbrev same_int : (z : ℤ) → to_int (of_int z) ≡ z
same_int (pos n) = refl
same_int (negsuc n) = refl

abbrev int : Coding ℤ
int = iso of_int to_int same_int (pair bool nat)

abbrev status : Coding Status
status = iso (λ s. s.not_in_service) (λ b. record { not_in_service = b }) (λ s. refl) bool

abbrev assignment : Coding Assignment
assignment =
    iso (λ a. (a.id, (a.shard_id, a.sequence_number)))
      (λ (i, (s, n)). record { id = i; shard_id = s; sequence_number = n }) (λ a. refl)
      (pair nat (pair string string))

abbrev pub codec : {A : Type 0} → Coding A → Codec A
codec c = record {
  marshal = λ a. some (of_list (c.enc a []));
  unmarshal = λ text. bind (c.dec (to_list text)) λ (a, rest). some a;
}

pub codec-laws : {A : Type 0} (c : Coding A) → CodecLaws (codec c)
codec-laws c = record {
  encoded = λ a e. absurd (cc e);
  decoded = λ a text e.
      let same : of_list (c.enc a []) ≡ text = cc e in
      rw⁻¹ same (rw (to_list-of_list (c.enc a []), c.law a []) refl);
}

abbrev pub assign_request : Coding AssignRequest
assign_request =
    iso (λ r. (r.worker_id, r.max_shards)) (λ (w, n). record { worker_id = w; max_shards = n })
      (λ r. refl) (pair string int)

abbrev pub assign_response : Coding AssignResponse
assign_response =
    iso (λ r. (r.status, r.assignments)) (λ (s, xs). record { status = s; assignments = xs })
      (λ r. refl) (pair status (list assignment))

abbrev pub checkpoint_request : Coding CheckpointRequest
checkpoint_request =
    iso (λ r. ((r.assignment_id, r.worker_id), (r.shard_id, r.sequence_number)))
      (λ ((i, w), (s, n)). record {
        assignment_id = i;
        worker_id = w;
        shard_id = s;
        sequence_number = n;
      })
      (λ r. refl) (pair (pair nat string) (pair string string))

abbrev pub checkpoint_response : Coding CheckpointResponse
checkpoint_response =
    iso (λ r. (r.status, r.ownership_changed))
      (λ (s, b). record { status = s; ownership_changed = b }) (λ r. refl) (pair status bool)
