-- ===== src/Processor/Retry.antt =====
-- checkpoint: how often it posts.
use libvegas.Base.{
  ℕ, ◌≡◌, refl, ◌∙◌, sym, ap, Bool, false, ◌&&◌, List, [], ◌∷◌, ◌++◌, Option, none, some, String,
  ltb, leb, nat_beq, append_assoc, append_nil,
}
use libvegas.Base.Run.{ok}
use libvegas.Http.{HttpReply, unsent, replied}
use libvegas.Messages.{CheckpointRequest, CheckpointResponse}
use libvegas.Consumer.{ConsumerConfig}
use libvegas.Worker.{ShardProcessor}
use libvegas.Processor.{
  Effect, posted, checkpoint_request, read_reply, checkpoint_once, retry, checkpoint,
}

-- The replies that are errors, after which the request is sent again.
pub data IsError : HttpReply → Type 0 where
  no_connection : IsError unsent
  bad_status :
      {status : ℕ} {body : Option String}
      → (leb 400 status && ltb status 500) ≡ false
      → nat_beq status 200 ≡ false
      → IsError (replied status body)
  cut_off : IsError (replied 200 none)

abbrev pub AreErrors : List HttpReply → Type 0
AreErrors [] = Unit {0}
AreErrors (reply ∷ rest) = IsError reply × AreErrors rest

-- The request, once for each reply.
abbrev pub posts : {R : Type 0} → CheckpointRequest → List HttpReply → List (Effect R)
posts request [] = []
posts request (reply ∷ rest) = posted request ∷ posts request rest

posts-append :
    {R : Type 0} (request : CheckpointRequest) (replies : List HttpReply) (reply : HttpReply)
    → Path
        (List (Effect R))
        (posts request replies ++ posted request ∷ [])
        (posts request (replies ++ reply ∷ []))
posts-append request [] reply = refl
posts-append request (first ∷ rest) reply =
    ap (λ l. posted request ∷ l) (posts-append request rest reply)

read_reply-IsError :
    (unmarshal : String → Option CheckpointResponse) (reply : HttpReply)
    → IsError reply
    → read_reply unmarshal reply ≡ ok none
unfolding read_reply
read_reply-IsError unmarshal reply no_connection = refl
read_reply-IsError unmarshal reply (bad_status fine other) = rw (fine, other) refl
read_reply-IsError unmarshal reply cut_off = refl

module _ {R : Type 0} (unmarshal : String → Option CheckpointResponse) (cfg : ConsumerConfig)
    (p : ShardProcessor) (sn : String) (closed : Bool) where
  retry-AreErrors :
      (errors later : List HttpReply) (log : List (Effect R))
      → AreErrors errors
      → retry unmarshal cfg p sn closed (errors ++ later) log
        ≡ retry unmarshal cfg p sn closed later
            (log ++ posts (checkpoint_request cfg p sn closed) errors)
  unfolding retry checkpoint_once
  retry-AreErrors [] later log h = ap (retry unmarshal cfg p sn closed later) (sym (append_nil log))
  retry-AreErrors (reply ∷ rest) later log (h, t) = rw (read_reply-IsError unmarshal reply h) (
      retry-AreErrors rest later (log ++ posted (checkpoint_request cfg p sn closed) ∷ []) t
      ∙ ap (retry unmarshal cfg p sn closed later) (
          append_assoc log (posted (checkpoint_request cfg p sn closed) ∷ [])
            (posts (checkpoint_request cfg p sn closed) rest)))

  as_retry :
      (first : HttpReply) (later : List HttpReply) (log : List (Effect R))
      → checkpoint unmarshal cfg p sn closed first later log
        ≡ retry unmarshal cfg p sn closed (first ∷ later) log
  unfolding checkpoint retry
  as_retry first later log = refl

  answered_once :
      (text : String) (r : CheckpointResponse) (rest : List HttpReply) (log : List (Effect R))
      → unmarshal text ≡ some r
      → retry unmarshal cfg p sn closed (replied 200 (some text) ∷ rest) log
        ≡ ok (some r, log ++ posted (checkpoint_request cfg p sn closed) ∷ [])
  unfolding retry checkpoint_once read_reply
  answered_once text r rest log e = rw e refl

  stopped_first : (log : List (Effect R)) → retry unmarshal cfg p sn closed [] log ≡ ok (none, log)
  unfolding retry
  stopped_first log = refl

  -- After replies that are errors, a connection that failed, a status other than 200 and 4xx or a
  -- body that was cut off, checkpoint posts the same request once for each reply: with a response
  -- that can be decoded next it returns that response and posts no more, and when Stop is called
  -- next it returns nothing.
  pub checkpoint-AreErrors :
      (first : HttpReply) (later errors rest : List HttpReply) (text : String)
      (r : CheckpointResponse) (log : List (Effect R))
      → AreErrors errors
      → unmarshal text ≡ some r
      → ((first ∷ later ≡ errors ++ replied 200 (some text) ∷ rest)
          → checkpoint unmarshal cfg p sn closed first later log
            ≡ ok (
              some r,
              log
                  ++ posts
                      (checkpoint_request cfg p sn closed)
                      (errors ++ replied 200 (some text) ∷ []),
            ))
        × ((first ∷ later ≡ errors)
            → checkpoint unmarshal cfg p sn closed first later log
              ≡ ok (none, log ++ posts (checkpoint_request cfg p sn closed) errors))
  checkpoint-AreErrors first later errors rest text r log h e = (
    λ same.
        as_retry first later log
        ∙ ap (λ replies. retry unmarshal cfg p sn closed replies log) same
        ∙ retry-AreErrors errors (replied 200 (some text) ∷ rest) log h
        ∙ answered_once text r rest _ e
        ∙ ap (λ l. ok (some r, l))
            (append_assoc log _ _
              ∙ ap (λ l. log ++ l)
                  (posts-append (checkpoint_request cfg p sn closed) errors
                    (replied 200 (some text)))),
    λ same.
        as_retry first later log
        ∙ ap (λ replies. retry unmarshal cfg p sn closed replies log)
            (same ∙ sym (append_nil errors))
        ∙ retry-AreErrors errors [] log h
        ∙ stopped_first _,
  )
