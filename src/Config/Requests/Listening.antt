-- ===== src/Config/Requests/Listening.antt =====
-- The read buffer of the configuration service: what stands in it behind a datagram, src/server_utils.c.
use pdc_pop3d.Prelude.{
  suc, ◌+◌, ◌-◌, ◌≤◌, ◌≡◌, refl, sym, ap, ◌∙◌, ◌++◌, arith, length, set, take, drop, length-set,
}
use pdc_pop3d.CString.{Bytes}
use pdc_pop3d.Buffer.{Buffer, buffer_reset, store}
use pdc_pop3d.Buffer.Contents.{IsValid}
use pdc_pop3d.Buffer.Queue.{length-store, buffer_write_adv_refines}
use pdc_pop3d.Global.{GlobalConfiguration, GlobalStatistics}
use pdc_pop3d.Config.State.{max_command_length}
use pdc_pop3d.Config.Requests.{buffer_size}
use pdc_pop3d.Config.Requests.Lines.{line_of, line_of_terminated, set-front, stored}
use pdc_pop3d.Config.Requests.Answers.{input_outcome}

-- The read buffer between two datagrams.
pub record IsListening (b : Buffer) : Type 0 where
  pub valid : IsValid b
  pub read_zero : b.read ≡ 0
  pub write_zero : b.write ≡ 0
  pub limit_is : b.limit ≡ buffer_size

-- The answer depends only on the line of the input.
pub input_outcome-line :
    (x y : Bytes) (c : GlobalConfiguration) (st : GlobalStatistics)
    → line_of x ≡ line_of y
    → input_outcome x c st ≡ input_outcome y c st
unfolding input_outcome
input_outcome-line x y c st e = rw (e, input_outcome) refl

-- The storage behind a datagram and its NUL, whatever stood there before.
abbrev pub loaded : Buffer → Bytes → Buffer
loaded b d = record b {
  cells = set (store b.cells b.write d) (length d) 0;
  write = b.write + (length d + 1);
}

pub line_of-loaded :
    (b : Buffer) (d : Bytes)
    → IsListening b
    → length d ≤ max_command_length
    → line_of (loaded b d).cells ≡ line_of d
line_of-loaded b d l h =
    let (_, _, c) = buffer_write_adv_refines d l.valid (omega (arith, l.limit_is, l.write_zero)) in
    let n = length d in
    let e : b.write + n - b.read ≡ n = omega (arith, l.read_zero, l.write_zero) in
    let empty : b.write - b.read ≡ 0 = omega (arith, l.read_zero, l.write_zero) in
    let cells = store b.cells b.write d in
    let front : take n cells ≡ d =
      sym (ap (λ j. take n (drop j cells)) l.read_zero)
      ∙ sym (ap (λ j. take j (drop b.read cells)) e)
      ∙ c
      ∙ ap (λ j. take j (drop b.read b.cells) ++ d) empty in
    ap line_of
      (set-front d cells front (omega (arith, length-store d b.cells b.write, l.valid, l.limit_is)))
    ∙ line_of_terminated d (drop (suc n) cells)

pub reset-IsListening :
    (b : Buffer) (d : Bytes) → IsListening b → IsListening (buffer_reset (loaded b d))
unfolding buffer_reset
reset-IsListening b d l = record {
  valid = omega (
    arith,
    l.valid,
    length-set (store b.cells b.write d) (length d) 0,
    length-store d b.cells b.write,
  );
  read_zero = refl;
  write_zero = refl;
  limit_is = l.limit_is;
}

pub stored-IsListening : (b : Buffer) (d : Bytes) → IsListening b → IsListening (stored b b.write d)
stored-IsListening b d l = record {
  valid = omega (arith, l.valid, length-store d b.cells b.write);
  read_zero = l.read_zero;
  write_zero = l.write_zero;
  limit_is = l.limit_is;
}
