-- ===== src/Config/State/Runs.antt =====
-- Steps of the configuration service over a network that takes every datagram.
use pdc_pop3d.Prelude.{
  ℕ, ◌+◌, ◌-◌, ◌≤◌, ◌≡◌, refl, sym, ap, ◌∙◌, subst, true, false, some, List, [], ◌∷◌, ◌++◌, inl,
  inr, arith, ltb, le→leb, le→ltb, leb, ltb→ge, drop-set, if◌then◌else◌, Bool-cases, length, take,
  drop, length-set, take-set_ge, append-nil, append_assoc, ℤ, pos, negsuc,
}
use pdc_pop3d.CString.{Bytes, cstr}
use pdc_pop3d.Step.{◌>>=◌, ◌>>◌, pure, get, modify, bind_run}
use pdc_pop3d.Buffer.{Buffer, buffer_reset, buffer_write_ptr, buffer_write_adv, store}
use pdc_pop3d.Buffer.Contents.{IsValid}
use pdc_pop3d.Buffer.Queue.{length-store, buffer_write_adv_refines}
use pdc_pop3d.Global.{GlobalConfiguration}
use pdc_pop3d.Config.State.{
  ConfigState, Udp, C, max_command_length, written, send_from, send_data_udp, say,
}

-- Every `sendto` takes all bytes that it is given.
abbrev pub IsWorking : Udp → Type 0
IsWorking udp = (k : ℕ) (bytes : Bytes) → udp.sendto k bytes ≡ pos (length bytes)

-- A buffer between two messages, with room for the longest of them.
pub record IsIdle (b : Buffer) : Type 0 where
  pub valid : IsValid b
  pub read_zero : b.read ≡ 0
  pub write_zero : b.write ≡ 0
  pub room : max_command_length + 1 ≤ b.limit

-- The datagrams that an answer makes: a text of more than 255 characters is not sent.
abbrev pub sent : Bytes → List Bytes
sent text = if ltb max_command_length (length (cstr text)) then [] else cstr text ∷ []

-- The state with other data in its configuration and its buffer, and with more datagrams sent.
abbrev pub after : ConfigState → GlobalConfiguration → List Bytes → Buffer → ℕ → ConfigState
after s c ds b k = record s {
  conf = c;
  server = record s.server { info_write_buff = b };
  datagrams = s.datagrams ++ ds;
  sends = k;
}

-- From `s`, a step returns `a`, leaves the configuration `c`, has sent `ds`, and has changed nothing
-- else but the write buffer, which is idle.
pub record Runs {A : Type 0} (m : C A) (s : ConfigState) (a : A) (c : GlobalConfiguration)
    (ds : List Bytes) : Type 0 where
  pub buffer : Buffer
  pub calls : ℕ
  pub idle : IsIdle buffer
  pub run : m s ≡ some (a, after s c ds buffer calls)

pub pure-Runs :
    {A : Type 0} (a : A) (s : ConfigState)
    → IsIdle s.server.info_write_buff
    → Runs (pure a) s a s.conf []
pure-Runs a s i = record {
  buffer = s.server.info_write_buff;
  calls = s.sends;
  idle = i;
  run = rw append-nil refl;
}

pub bind-Runs :
    {A B : Type 0} (m : C A) (f : A → C B) (s : ConfigState) (a : A) (b : B)
    (c c' : GlobalConfiguration) (ds ds' : List Bytes)
    → Runs m s a c ds
    → ((w : Buffer) (k : ℕ) → IsIdle w → Runs (f a) (after s c ds w k) b c' ds')
    → Runs (m >>= f) s b c' (ds ++ ds')
bind-Runs m f s a b c c' ds ds' r g =
    let r' = g r.buffer r.calls r.idle in
    record {
      buffer = r'.buffer;
      calls = r'.calls;
      idle = r'.idle;
      run =
          bind_run m f r.run
          ∙ r'.run
          ∙ ap (λ x. some (b, record (after s c' ds r'.buffer r'.calls) { datagrams = x }))
              (append_assoc s.datagrams ds ds');
    }

-- A step that goes on from the state that it finds, or from a changed configuration.
pub get-Runs :
    {A : Type 0} (f : ConfigState → C A) (s : ConfigState) (a : A) (c : GlobalConfiguration)
    (ds : List Bytes)
    → Runs (f s) s a c ds
    → Runs (get >>= f) s a c ds
get-Runs f s a c ds r = record { buffer = r.buffer; calls = r.calls; idle = r.idle; run = r.run }

pub modify-Runs :
    {A : Type 0} (f : GlobalConfiguration → GlobalConfiguration) (m : C A) (s : ConfigState) (a : A)
    (c : GlobalConfiguration) (ds : List Bytes)
    → Runs m (record s { conf = f s.conf }) a c ds
    → Runs (modify (λ s. record s { conf = f s.conf }) >> m) s a c ds
modify-Runs f m s a c ds r = record {
  buffer = r.buffer;
  calls = r.calls;
  idle = r.idle;
  run = r.run;
}

-- The bytes that `send_data_udp` hands to `sendto` are the text.
written-bytes :
    (b : Buffer) (d : Bytes)
    → IsIdle b
    → length d ≤ max_command_length
    → take (length d) (drop b.write (written b b.write d).cells) ≡ d
written-bytes b d i h =
    let (_, _, c) = buffer_write_adv_refines d i.valid (omega (arith, i.room, i.write_zero)) in
    let n = length d in
    let e : b.write + n - b.read ≡ n = omega arith in
    let empty : b.write - b.read ≡ 0 = omega arith in
    let here : b.read ≡ b.write = omega arith in
    rw drop-set (take-set_ge n n (drop b.write (store b.cells b.write d)) 0 (omega arith))
    ∙ sym (ap (λ j. take n (drop j (store b.cells b.write d))) here)
    ∙ sym (ap (λ j. take j (drop b.read (store b.cells b.write d))) e)
    ∙ c
    ∙ ap (λ j. take j (drop b.read b.cells) ++ d) empty

-- The buffer that the text leaves behind.
written-IsIdle :
    (b : Buffer) (d : Bytes)
    → IsIdle b
    → length d ≤ max_command_length
    → IsIdle (buffer_reset (record (written b b.write d) { write = b.write + length d }))
unfolding buffer_reset
written-IsIdle b d i h = record {
  valid = omega (
    arith,
    i.valid,
    i.room,
    length-set (store b.cells b.write d) (b.write + length d) 0,
    length-store d b.cells b.write,
  );
  read_zero = refl;
  write_zero = refl;
  room = i.room;
}

module _ (udp : Udp) (works : IsWorking udp) where
  send_short :
      (text : Bytes) (s : ConfigState)
      → IsIdle s.server.info_write_buff
      → length (cstr text) ≤ max_command_length
      → Runs (send_data_udp udp text) s (pos (length (cstr text))) s.conf (cstr text ∷ [])
  unfolding send_data_udp send_from buffer_write_ptr buffer_write_adv
  send_short text s i h =
      let b = s.server.info_write_buff in
      let d = cstr text in
      let short : ltb max_command_length (length d) ≡ false = le→ltb _ _ h in
      let ptr : leb b.write b.limit ≡ true = le→leb _ _ (omega (arith, i.room, i.write_zero)) in
      let fits : ltb (b.limit - b.write) (length d) ≡ false =
        le→ltb _ _ (omega (arith, i.room, i.write_zero)) in
      let adv : leb (b.write + length d) b.limit ≡ true =
        le→leb _ _ (omega (arith, i.room, i.write_zero)) in
      record {
        buffer = buffer_reset (record (written b b.write d) { write = b.write + length d });
        calls = s.sends + 1;
        idle = written-IsIdle b d i h;
        run = rw (short, ptr, fits, adv, written-bytes b d i h, works) refl;
      }

  -- A text that is too long is not sent.
  send_long :
      (text : Bytes) (s : ConfigState)
      → IsIdle s.server.info_write_buff
      → ltb max_command_length (length (cstr text)) ≡ true
      → Runs (send_data_udp udp text) s (negsuc 0) s.conf []
  unfolding send_data_udp
  send_long text s i e = record {
    buffer = s.server.info_write_buff;
    calls = s.sends;
    idle = i;
    run = rw (e, append-nil) refl;
  }

  -- The result of an answer is not used.
  say_from :
      (text : Bytes) (s : ConfigState) (z : ℤ) (ds : List Bytes)
      → Runs (send_data_udp udp text) s z s.conf ds
      → Runs (say udp text) s tt s.conf ds
  say_from text s z ds r = record {
    buffer = r.buffer;
    calls = r.calls;
    idle = r.idle;
    run = bind_run (send_data_udp udp text) (λ _. pure tt) r.run;
  }

  pub say-Runs :
      (text : Bytes) (s : ConfigState)
      → IsIdle s.server.info_write_buff
      → Runs (say udp text) s tt s.conf (sent text)
  say-Runs text s i = elim (Bool-cases (ltb max_command_length (length (cstr text)))) [
    | inl e ↦ rw e (say_from text s (negsuc 0) [] (send_long text s i e))
    | inr e ↦ rw e (say_from text s _ _ (send_short text s i (ltb→ge _ _ e)))
  ]

  -- An answer before a result.
  pub say_then-Runs :
      {A : Type 0} (text : Bytes) (a : A) (s : ConfigState)
      → IsIdle s.server.info_write_buff
      → Runs (say udp text >> pure a) s a s.conf (sent text)
  say_then-Runs text a s i =
      subst (Runs (say udp text >> pure a) s a s.conf) (append-nil (sent text)) (
        bind-Runs (say udp text) (λ _. pure a) s tt a s.conf s.conf (sent text) []
          (say-Runs text s i) (λ w k j. pure-Runs a (after s s.conf (sent text) w k) j))
