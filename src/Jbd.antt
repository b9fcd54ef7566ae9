-- ===== src/Jbd.antt =====
-- src/jbd_protocol.cpp: requests, the checksum and the receive buffer of the JBD BMS protocol.
-- Bytes are numbers below 256. `parse_once` is one pass of `try_parse` up to its own recursive call.
pub mod Frame
pub mod View
pub mod Sound
pub mod Stream
pub mod Request
pub mod Apply
mod Examples
use limonitor.Common.{
  ℕ, zero, suc, ◌+◌, ◌-◌, ◌*◌, ◌/◌, ◌%◌, ◌^◌, List, [], ◌∷◌, ◌++◌, Option, none, some, ltb, ◌==◌,
  ◌!=◌, if◌then◌else◌, length, get_or, take, drop,
}

abbrev pub start_byte : ℕ
start_byte = 0xDD

abbrev pub end_byte : ℕ
end_byte = 0x77

-- DD A5 cmd 00 ck_hi ck_lo 77
pub build_request : ℕ → List ℕ
build_request cmd =
    let ck = (0x10000 - cmd) % 0x10000 in
    start_byte ∷ 0xA5 ∷ cmd ∷ 0 ∷ (ck / 2 ^ 8) % 256 ∷ ck % 256 ∷ end_byte ∷ []

-- The loop of `checksum`, in `uint32_t`.
pub sum32 : ℕ → List ℕ → ℕ
sum32 acc [] = acc
sum32 acc (b ∷ bs) = sum32 ((acc + b) % 2 ^ 32) bs

pub checksum : List ℕ → ℕ
checksum bytes = (0x10000 - sum32 0 bytes % 0x10000) % 0x10000

pub data ParseResult : Type 0 where
  need_more complete error : ParseResult

pub record Parser : Type 0 where
  pub buf : List ℕ
  pub payload : List ℕ
  pub last_cmd : ℕ

pub reset : Parser → Parser
reset p = record { buf = []; payload = []; last_cmd = 0 }

-- The first loop of `try_parse`.
pub skip_to_start : List ℕ → List ℕ
skip_to_start [] = []
skip_to_start (b ∷ bs) = if b == start_byte then b ∷ bs else skip_to_start bs

-- What a pass ends with: a return of `try_parse`, or its call of itself.
pub data Pass : Type 0 where
  done : Parser → ParseResult → Pass
  again : Parser → Pass

-- A candidate frame is complete in the buffer: check it and take it off.
pub check_frame : Parser → List ℕ → Pass
check_frame p buf =
    let data_len = get_or buf 3 0 in
    let total = 4 + data_len + 2 + 1 in
    let stored_ck = get_or buf (4 + data_len) 0 * 2 ^ 8 + get_or buf (5 + data_len) 0 in
    let calc_ck = checksum (take (3 + data_len) (drop 1 buf)) in
    if get_or buf (total - 1) 0 != end_byte
    then again (record p { buf = drop 1 buf })
    else if stored_ck != calc_ck
    then again (record p { buf = drop 1 buf })
    else if get_or buf 2 0 != 0
    then done (record p { buf = drop total buf }) error
    else done
        (record {
          buf = drop total buf;
          payload = take data_len (drop 4 buf);
          last_cmd = get_or buf 1 0;
        })
        complete

pub pass_on : Parser → List ℕ → Pass
pass_on p buf =
    if ltb (length buf) 4
    then done (record p { buf = buf }) need_more
    else if ltb (length buf) (4 + get_or buf 3 0 + 2 + 1)
    then done (record p { buf = buf }) need_more
    else check_frame p buf

pub parse_once : Parser → Pass
parse_once p = pass_on p (skip_to_start p.buf)

-- `none` is fuel that ran out.
pub try_parse : ℕ → Parser → Option (Parser × ParseResult)
try_parse zero p = none
try_parse (suc fuel) p = elim (parse_once p) [ done q r ↦ some (q, r) | again q ↦ try_parse fuel q ]

-- Each call of `try_parse` by itself has a shorter buffer.
pub feed : List ℕ → Parser → Option (Parser × ParseResult)
feed bytes p = let buf = p.buf ++ bytes in try_parse (suc (length buf)) (record p { buf = buf })
