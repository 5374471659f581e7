-- ===== src/Http.antt =====
-- What the program uses of net/http and encoding/json: replies, and the coding of a type, which is a
-- parameter with its documented laws.
use libvegas.Base.{ℕ, Option, none, some, String, ◌≡◌, ◌≢◌}

-- A call of a client: an error, or a status and the body, if it can be read.
pub data HttpReply : Type 0 where
  unsent : HttpReply
  replied : ℕ → Option String → HttpReply

-- What a handler writes.
pub record HttpResponse : Type 0 where
  pub status : ℕ
  pub body : String

pub record Codec (A : Type 0) : Type 0 where
  pub marshal : A → Option String
  pub unmarshal : String → Option A

-- A value of one of the message types has an encoding, and the encoding is decoded to it.
pub record CodecLaws {A : Type 0} (codec : Codec A) : Type 0 where
  pub encoded : (a : A) → codec.marshal a ≢ none
  pub decoded :
      (a : A) (text : String) → codec.marshal a ≡ some text → codec.unmarshal text ≡ some a
