-- ===== src/Jbd/Sound/Resync.antt =====
-- src/jbd_protocol.cpp: what `feed` makes of a frame behind other bytes.
use limonitor.Common.{
  ℕ, zero, suc, ◌+◌, ◌*◌, ◌/◌, ◌%◌, ◌^◌, ◌≡◌, refl, ◌∙◌, false, List, ◌++◌, some, arith, ◌!=◌,
  length, if◌then◌else◌,
}
use limonitor.Jbd.{
  end_byte, checksum, Parser, ParseResult, done, complete, error, skip_to_start, pass_on,
  parse_once, feed,
}
use limonitor.Jbd.Frame.{checked, frame, check_frame-raw_frame}
use limonitor.Jbd.View.{IsJunk, skip_to_start-junk}
use limonitor.Jbd.Stream.{plus, pass_on-raw_frame, try_parse-done}
use limonitor.Jbd.Sound.{frame-append}

-- What a valid frame at the head of the buffer comes to.
abbrev Delivers : Parser → ℕ → ℕ → List ℕ → List ℕ → Parser × ParseResult
Delivers p cmd zero payload rest =
    (record { buf = rest; payload = payload; last_cmd = cmd }, complete)
Delivers p cmd (suc status) payload rest = (record p { buf = rest }, error)

split_ck : (ck : ℕ) → (ck / 2 ^ 8 * 2 ^ 8 + ck % 2 ^ 8 != ck) ≡ false
split_ck ck = let e : ck / 2 ^ 8 * 2 ^ 8 + ck % 2 ^ 8 ≡ ck = omega arith in rw e (ground arith)

pass_on-frame :
    (p : Parser) (cmd status : ℕ) (payload rest : List ℕ)
    → pass_on p (frame cmd status payload ++ rest)
      ≡ (let r = Delivers p cmd status payload rest in done r.0 r.1)
pass_on-frame p cmd status payload rest =
    let ck = checksum (checked cmd status payload) in
    rw
      (
        frame-append cmd status payload rest,
        pass_on-raw_frame p cmd status payload (ck / 2 ^ 8) (ck % 2 ^ 8) end_byte rest,
        check_frame-raw_frame p cmd status payload (ck / 2 ^ 8) (ck % 2 ^ 8) end_byte rest,
        split_ck ck,
      )
      (delivers status)
  where
    delivers :
        (s : ℕ)
        → (if s != 0
            then done (record p { buf = rest }) error
            else done (record { buf = rest; payload = payload; last_cmd = cmd }) complete)
          ≡ (let r = Delivers p cmd s payload rest in done r.0 r.1)
    delivers zero = refl
    delivers (suc s) = ground arith

-- A frame is found behind any bytes that are no start byte, whatever follows it. With status 0 its
-- command and payload are stored and `complete` is returned; with another status they stay as they
-- were and `error` is returned. The bytes behind it stay in the buffer.
pub feed-frame :
    (p : Parser) (junk rest payload : List ℕ) (cmd status : ℕ)
    → IsJunk p.buf
    → IsJunk junk
    → feed (junk ++ (frame cmd status payload ++ rest)) p
      ≡ some (Delivers p cmd status payload rest)
unfolding feed
feed-frame p junk rest payload cmd status old clean =
    try_parse-done (length (p.buf ++ (junk ++ (frame cmd status payload ++ rest)))) _ _ _
      (pass ∙ delivered status)
  where
    found :
        skip_to_start (p.buf ++ (junk ++ (frame cmd status payload ++ rest)))
        ≡ frame cmd status payload ++ rest
    found =
        skip_to_start-junk p.buf _ old
        ∙ skip_to_start-junk junk _ clean
        ∙ unfold frame skip_to_start in refl

    all_bytes : Parser
    all_bytes = plus p (junk ++ (frame cmd status payload ++ rest))

    pass :
        parse_once all_bytes ≡ (let r = Delivers all_bytes cmd status payload rest in done r.0 r.1)
    pass = unfold parse_once in rw found (pass_on-frame all_bytes cmd status payload rest)

    delivered :
        (s : ℕ)
        → (let r = Delivers all_bytes cmd s payload rest in done r.0 r.1)
          ≡ (let r = Delivers p cmd s payload rest in done r.0 r.1)
    delivered zero = refl
    delivered (suc s) = refl
