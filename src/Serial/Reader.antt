-- ===== src/Serial/Reader.antt =====
-- src/serial_reader.cpp, `read_loop`: bytes from the port are collected into lines, prompts are answered,
-- and a status line with the target line after it gives a snapshot. The state is that of the loop's
-- variables with what was written to the port and what the callback was given, in order.
pub mod Pairs
pub mod Settings
use limonitor.Common.{
  ℕ, zero, suc, Bool, true, false, not, ◌&&◌, ◌||◌, ◌==◌, List, [], ◌∷◌, ◌++◌, Option, none, some,
  ltb, if◌then◌else◌,
}
use limonitor.Double.{Double, ◌<F◌, decimal}
use limonitor.Battery.{PwrGateSnapshot}
use limonitor.Serial.Lines.{
  ps_key, target_key, contains, is_empty, prompt_response, is_unterminated_prompt,
}
use limonitor.Serial.Gate.{Text, parse}

abbrev pub max_line : ℕ
max_line = 1024

-- `settings` is the 'S' that opens the settings menu.
pub data Sent : Type 0 where
  reply : List ℕ → Sent
  settings : Sent

pub record Reader (F : Type 0) : Type 0 where
  pub has_callback : Bool
  pub line_buf : List ℕ
  pub line_len : ℕ
  pub pending_status : List ℕ
  pub reconfigure_sent : Bool
  pub sent : List Sent
  pub delivered : List (PwrGateSnapshot F)

module _ {F : Type 0} ⦃d : Double F⦄ where
  pub needs_reconfigure : F → Bool
  needs_reconfigure target_a = target_a <F decimal 99 1

  pub reconfigure : PwrGateSnapshot F → Reader F → Reader F
  reconfigure snap s =
      if not s.reconfigure_sent && needs_reconfigure snap.target_a
      then record s { sent = s.sent ++ (settings ∷ []); reconfigure_sent = true }
      else s

  pub deliver : Bool × PwrGateSnapshot F → Reader F → Reader F
  deliver (ok, snap) s =
      if ok && s.has_callback
      then reconfigure snap (record s { delivered = s.delivered ++ (snap ∷ []) })
      else s

-- `now` is the system clock when a pair is parsed, and `blank` a `PwrGateSnapshot{}`.
module _ {F : Type 0} ⦃d : Double F⦄ (text : Text F) (now : ℕ) (blank : PwrGateSnapshot F) where
  pub take_data : List ℕ → Reader F → Reader F
  take_data line s =
      let paired = deliver (parse text now s.pending_status line blank) s in
      if contains ps_key line
      then record s { pending_status = line }
      else if not (is_empty s.pending_status) && contains target_key line
      then record paired { pending_status = [] }
      else s

  pub handle_line : Option (List ℕ) → List ℕ → Reader F → Reader F
  handle_line (some resp) line s = record s { sent = s.sent ++ (reply resp ∷ []) }
  handle_line none line s = take_data line s

  pub take_line : List ℕ → Reader F → Reader F
  take_line line s = handle_line (prompt_response line) line s

  pub keep_byte : ℕ → Reader F → Reader F
  keep_byte c s =
      if ltb s.line_len max_line
      then record s { line_buf = s.line_buf ++ (c ∷ []); line_len = suc s.line_len }
      else s

  pub take_byte : ℕ → Reader F → Reader F
  take_byte c s =
      if c == 13
      then s
      else if c == 10
      then take_line s.line_buf (record s { line_buf = []; line_len = 0 })
      else keep_byte c s

  -- One `read` that gave bytes.
  pub feed : List ℕ → Reader F → Reader F
  feed [] s = s
  feed (c ∷ cs) s = feed cs (take_byte c s)

module _ {F : Type 0} where
  pub reply_now : Option (List ℕ) → Reader F → Reader F
  reply_now none s = s
  reply_now (some resp) s = record s {
    sent = s.sent ++ (reply resp ∷ []);
    line_buf = [];
    line_len = 0;
  }

  -- A `read` that gave nothing.
  pub idle : Reader F → Reader F
  idle s =
      if not (is_empty s.line_buf) && is_unterminated_prompt s.line_buf
      then reply_now (prompt_response s.line_buf) s
      else s

module _ {F : Type 0} ⦃d : Double F⦄ (text : Text F) (now : ℕ) (blank : PwrGateSnapshot F) where
  -- The loop, over what its reads give.
  pub session : List (List ℕ) → Reader F → Reader F
  session [] s = s
  session ([] ∷ reads) s = session reads (idle s)
  session ((c ∷ cs) ∷ reads) s = session reads (feed text now blank (c ∷ cs) s)
