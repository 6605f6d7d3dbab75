-- ===== src/Http.antt =====
-- What a client sees of one HTTP exchange, and the network that the parts of dispatch share.
use cofiswarm_dispatch.Prelude.{ℕ, Text, Bool, Option, List}
use cofiswarm_dispatch.Prelude.Decimal.{ℤ}

-- A failed call carries its error; an answer its status and its body.
pub data Reply : Type 0 where
  no_connection : Text → Reply
  answer : (status : ℕ) → Text → Reply

-- The answer to a request for a stream: its chunks, and whether it breaks off after them.
pub data StreamReply : Type 0 where
  refused : Text → StreamReply
  streaming : (status : ℕ) → (chunks : List Text) → (broken : Bool) → StreamReply

-- A URL that cannot be used is a failed call. A timeout is in seconds; there may be none.
pub record Network : Type 1 where
  pub World : Type 0
  pub get : (url : Text) → (timeout : Option ℤ) → World → Reply × World
  pub post : (url body : Text) → (timeout : Option ℤ) → World → Reply × World
  pub post_stream :
      (url body session_id : Text) → (timeout : Option ℤ) → World → StreamReply × World
