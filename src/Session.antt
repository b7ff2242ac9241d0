-- ===== src/Session.antt =====
-- include/session.h and src/session.cc: what a connection answers.
pub mod Answers
pub mod Entities
use creeper_url_shortening_w.Dispatcher.{Route, get_handler}
use creeper_url_shortening_w.Http.{Request, Response, stock_400, response_to_string}
use creeper_url_shortening_w.RequestParser.{BeastParser, parse}
use creeper_url_shortening_w.Prelude.Assoc.{Assoc}
use creeper_url_shortening_w.Prelude.Text.{Bytes}
use creeper_url_shortening_w.Prelude.{ℕ, Bool, true, false, Option, none, some, if◌then◌else◌}

-- `handle_request` of a handler, on the state `W` that the handlers share. `none`: an exception leaves
-- it.
abbrev pub Handler : Type 0 → Type 0
Handler W = Request → W → Option (W × Response)

-- The state of a connection: what it waits for. `failed` is an exception or a null pointer.
pub data Phase : Type 0 where
  reading closed failed : Phase
  writing : Bytes → Phase

module _ {A W : Type 0} (beast : BeastParser) (routes : Assoc (Route A (Handler W))) where
  abbrev answer : Option (W × Response) → Option (W × Bytes)
  answer none = none
  answer (some (w, res)) = some (w, response_to_string res)

  abbrev respond : Request → W → Option (Handler W) → Option (W × Bytes)
  respond request w none = none
  respond request w (some handler) = answer (handler request w)

  -- `remote_endpoint`, which only the log prints, is taken not to throw.
  unfoldable pub handle_response : W → Bytes → Option (W × Bytes)
  handle_response w request_msg =
      let request = parse beast request_msg in
      if request.valid
      then respond request w (get_handler routes request)
      else some (w, response_to_string stock_400)

  abbrev sent : W → Option (W × Bytes) → W × Phase
  sent w none = (w, failed)
  sent w (some (w', response_msg)) = (w', writing response_msg)

  -- `none` is an error code.
  unfoldable pub handle_read : W → Option Bytes → W × Phase
  unfolding handle_response
  handle_read w none = (w, closed)
  handle_read w (some data_) = sent w (handle_response w data_)

  unfoldable pub handle_write : Bool → Phase
  handle_write ok = if ok then reading else closed

  -- What the connection waits for next. Read ends with the bytes or an error, write with or without
  -- one; each only while it is waited for.
  pub data Step : W × Phase → W × Phase → Type 0 where
    read : (w : W) (got : Option Bytes) → Step (w, reading) (handle_read w got)
    write :
        (w : W) (response_msg : Bytes) (ok : Bool)
        → Step (w, writing response_msg) (w, handle_write ok)
