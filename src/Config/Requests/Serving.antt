-- ===== src/Config/Requests/Serving.antt =====
-- The loop of `handle_configuration_requests`, src/server_utils.c: every datagram is answered on its
-- own, in the order of arrival.
use pdc_pop3d.Prelude.{
  ℕ, ◌+◌, ◌-◌, ◌≤◌, ◌≡◌, refl, sym, ap, ap₂, ◌∙◌, subst, true, false, Option, some, List, [], ◌∷◌,
  ◌++◌, append-nil, append_assoc, arith, ltb, leb, le→leb, ltb→ge, if◌then◌else◌, Bool-cases, inl,
  inr, length, take,
}
use pdc_pop3d.CString.{Bytes}
use pdc_pop3d.Step.{◌>>◌, pure, bind_run, then_run}
use pdc_pop3d.Buffer.{Buffer, buffer_init, buffer_reset, buffer_write_ptr, buffer_write_adv}
use pdc_pop3d.Global.{GlobalConfiguration, GlobalStatistics}
use pdc_pop3d.Config.State.{ConfigServer, ConfigState, Udp, max_command_length, say}
use pdc_pop3d.Config.State.Runs.{IsWorking, IsIdle, sent, after, say_then-Runs}
use pdc_pop3d.Config.Texts
use pdc_pop3d.Config.Commands.Outcome.{Outcome, answered}
use pdc_pop3d.Config.Requests.{
  Received, failed, datagram, buffer_size, set_read_buffer, config_parse_input, accept, receive,
  serve, handle_configuration_requests,
}
use pdc_pop3d.Config.Requests.Lines.{stored, receive_lem}
use pdc_pop3d.Config.Requests.Listening.{
  IsListening, loaded, input_outcome-line, line_of-loaded, reset-IsListening, stored-IsListening,
}
use pdc_pop3d.Config.Requests.Answers.{input_outcome, Answers, config_parse_input_refines}

-- What the datagrams are to do one after the other: each is cut at the size of the buffer; one of
-- more than 255 bytes is refused and ends the service, as a failing `recvfrom` does.
unfoldable pub served : List Received → GlobalConfiguration → GlobalStatistics → Outcome
served [] c st = answered c []
served (failed ∷ es) c st = answered c []
served (datagram d ∷ es) c st =
    let bytes = take buffer_size d in
    let o = input_outcome bytes c st in
    let rest = served es o.conf st in
    if ltb max_command_length (length bytes)
    then answered c (sent Texts.err_too_big)
    else answered rest.conf (o.datagrams ++ rest.datagrams)

-- The state between two datagrams.
pub record Serving (s : ConfigState) : Type 0 where
  pub idle : IsIdle s.server.info_write_buff
  pub listening : IsListening s.server.info_read_buff

-- `got` is a result `a` and a state after `s` with the configuration and the datagrams of the
-- outcome; the statistics are as they were, and no parser is left behind.
pub record Serves {A : Type 0} (got : Option (A × ConfigState)) (s : ConfigState) (a : A)
    (o : Outcome) : Type 0 where
  pub state : ConfigState
  pub run : got ≡ some (a, state)
  pub serving : Serving state
  pub conf_is : state.conf ≡ o.conf
  pub stats_are : state.stats ≡ s.stats
  pub all_sent : state.datagrams ≡ s.datagrams ++ o.datagrams
  pub parsers_are : state.parsers ≡ s.parsers

module _ (udp : Udp) (works : IsWorking udp) (memory : (k : ℕ) → udp.calloc k ≡ (true, true)) where
  accept-Serves :
      (d : Bytes) (s : ConfigState)
      → Serving s
      → length d ≤ max_command_length
      → Serves
          (accept udp (stored s.server.info_read_buff s.server.info_read_buff.write d) (length d) s)
          s
          true
          (input_outcome d s.conf s.stats)
  unfolding accept buffer_write_adv
  accept-Serves d s v h =
      let b = s.server.info_read_buff in
      let l = v.listening in
      let t = set_read_buffer (loaded b d) s in
      let fits : leb (b.write + (length d + 1)) b.limit ≡ true =
        le→leb _ _ (omega (arith, l.limit_is, l.write_zero)) in
      let same = input_outcome-line (loaded b d).cells d s.conf s.stats (line_of-loaded b d l h) in
      let a = subst (Answers (config_parse_input udp (loaded b d).cells t) t) same (
        config_parse_input_refines udp works (loaded b d).cells t (memory s.parser_inits) v.idle) in
      let o = input_outcome d s.conf s.stats in
      let t' = record (after t o.conf o.datagrams a.buffer a.calls) {
        parser_inits = s.parser_inits + 1;
      } in
      record {
        state = set_read_buffer (buffer_reset (loaded b d)) t';
        run = rw (fits, accept) (then_run (config_parse_input udp (loaded b d).cells) _ a.run);
        serving = record { idle = a.idle; listening = reset-IsListening b d l };
        conf_is = refl;
        stats_are = refl;
        all_sent = refl;
        parsers_are = refl;
      }

  -- One of more than 255 bytes.
  too_big-Serves :
      (s : ConfigState) (ptr : ℕ) (bytes : Bytes)
      → Serving s
      → (b : Buffer) → IsListening b
      → Serves
          ((say udp Texts.err_too_big >> pure false) (set_read_buffer b s))
          s
          false
          (answered s.conf (sent Texts.err_too_big))
  too_big-Serves s ptr bytes v b l =
      let r = say_then-Runs udp works Texts.err_too_big false (set_read_buffer b s) v.idle in
      record {
        state = after (set_read_buffer b s) s.conf (sent Texts.err_too_big) r.buffer r.calls;
        run = r.run;
        serving = record { idle = r.idle; listening = l };
        conf_is = refl;
        stats_are = refl;
        all_sent = refl;
        parsers_are = refl;
      }

  receive_write :
      (d : Bytes) (s : ConfigState)
      → Serving s
      → receive udp (datagram d) s ≡ (
          let bytes = take buffer_size d in
          let b = stored s.server.info_read_buff s.server.info_read_buff.write bytes in
          if ltb max_command_length (length bytes)
          then (say udp Texts.err_too_big >> pure false) (set_read_buffer b s)
          else accept udp b (length bytes) s)
  unfolding buffer_write_ptr
  receive_write d s v =
      let b = s.server.info_read_buff in
      let l = v.listening in
      let in_range : leb b.write b.limit ≡ true = le→leb _ _ (omega (arith, l.valid)) in
      let room : b.limit - b.write ≡ buffer_size = omega (arith, l.limit_is, l.write_zero) in
      receive_lem udp d s b.write buffer_size (rw (in_range, room) refl)

  -- A turn that ends the loop, and one that goes on.
  serve_ends :
      (e : Received) (es : List Received) (s : ConfigState) (o : Outcome)
      → Serves (receive udp e s) s false o
      → Serves (serve udp (e ∷ es) s) s tt o
  unfolding serve
  serve_ends e es s o r = record {
    state = r.state;
    run = bind_run (receive udp e) _ r.run;
    serving = r.serving;
    conf_is = r.conf_is;
    stats_are = r.stats_are;
    all_sent = r.all_sent;
    parsers_are = r.parsers_are;
  }

  serve_goes_on :
      (e : Received) (es : List Received) (s : ConfigState) (o o' : Outcome)
      → (r : Serves (receive udp e s) s true o) → Serves (serve udp es r.state) r.state tt o'
      → Serves (serve udp (e ∷ es) s) s tt (answered o'.conf (o.datagrams ++ o'.datagrams))
  unfolding serve
  serve_goes_on e es s o o' r r' = record {
    state = r'.state;
    run = bind_run (receive udp e) _ r.run ∙ r'.run;
    serving = r'.serving;
    conf_is = r'.conf_is;
    stats_are = r'.stats_are ∙ r.stats_are;
    all_sent =
        r'.all_sent
        ∙ ap (λ x. x ++ o'.datagrams) r.all_sent
        ∙ append_assoc s.datagrams o.datagrams o'.datagrams;
    parsers_are = r'.parsers_are ∙ r.parsers_are;
  }

  serve_big :
      (d : Bytes) (es : List Received) (s : ConfigState)
      → Serving s
      → ltb max_command_length (length (take buffer_size d)) ≡ true
      → Serves (serve udp (datagram d ∷ es) s) s tt (answered s.conf (sent Texts.err_too_big))
  serve_big d es s v f =
      let bytes = take buffer_size d in
      let b = s.server.info_read_buff in
      serve_ends (datagram d) es s (answered s.conf (sent Texts.err_too_big)) (
        subst (λ got. Serves got s false (answered s.conf (sent Texts.err_too_big)))
          (sym (receive_write d s v ∙ rw f refl))
          (too_big-Serves s b.write bytes v (stored b b.write bytes)
            (stored-IsListening b bytes v.listening)))

  receive_short :
      (d : Bytes) (s : ConfigState)
      → Serving s
      → ltb max_command_length (length (take buffer_size d)) ≡ false
      → Serves
          (receive udp (datagram d) s)
          s
          true
          (input_outcome (take buffer_size d) s.conf s.stats)
  receive_short d s v f =
      let bytes = take buffer_size d in
      subst (λ got. Serves got s true (input_outcome bytes s.conf s.stats))
        (sym (receive_write d s v ∙ rw f refl)) (accept-Serves bytes s v (ltb→ge _ _ f))

  -- What a turn that sends nothing does.
  still-Serves :
      {A : Type 0} (a : A) (s : ConfigState)
      → Serving s
      → Serves (some (a, s)) s a (answered s.conf [])
  still-Serves a s v = record {
    state = s;
    run = refl;
    serving = v;
    conf_is = refl;
    stats_are = refl;
    all_sent = sym (append-nil s.datagrams);
    parsers_are = refl;
  }

  serve-Serves :
      (es : List Received) (s : ConfigState)
      → Serving s
      → Serves (serve udp es s) s tt (served es s.conf s.stats)
  unfolding serve served receive
  serve-Serves [] s v = still-Serves tt s v
  serve-Serves (failed ∷ es) s v =
      serve_ends failed es s (answered s.conf []) (still-Serves false s v)
  serve-Serves (datagram d ∷ es) s v =
      elim (Bool-cases (ltb max_command_length (length (take buffer_size d)))) [
        | inl f ↦ rw (f, served) (serve_big d es s v f)
        | inr f ↦
            let r = receive_short d s v f in
            let o = input_outcome (take buffer_size d) s.conf s.stats in
            rw (f, served)
              (serve_goes_on (datagram d) es s o (served es o.conf s.stats) r (
                subst (Serves (serve udp es r.state) r.state tt)
                  (ap₂ (served es) r.conf_is r.stats_are) (serve-Serves es r.state r.serving)))
      ]

  -- Over a network that takes every datagram, with memory for the parsers, the thread answers the
  -- datagrams one after the other, each as if it were the only one: it is cut at 1024 bytes; up to
  -- 255 bytes its line is answered as its outcome says, from the configuration that the earlier
  -- ones left, whatever they left in the buffer; a longer one is refused and ends the service, as
  -- does a failing `recvfrom`. The statistics do not change, and no parser is left behind.
  pub handle_configuration_requests_refines :
      (es : List Received) (s : ConfigState)
      → buffer_size ≤ length s.server.info_read_buff.cells
      → buffer_size ≤ length s.server.info_write_buff.cells
      → Serves (handle_configuration_requests udp es s) s tt (served es s.conf s.stats)
  unfolding handle_configuration_requests buffer_init
  handle_configuration_requests_refines es s h k =
      let server : ConfigServer = record {
        info_write_buff = buffer_init buffer_size s.server.info_write_buff.cells;
        info_read_buff = buffer_init buffer_size s.server.info_read_buff.cells;
      } in
      let r =
        serve-Serves es (record s { server = server })
          (record {
            idle = record {
              valid = omega (arith, k);
              read_zero = refl;
              write_zero = refl;
              room = omega arith;
            };
            listening = record {
              valid = omega (arith, h);
              read_zero = refl;
              write_zero = refl;
              limit_is = refl;
            };
          }) in
      record {
        state = r.state;
        run = r.run;
        serving = r.serving;
        conf_is = r.conf_is;
        stats_are = r.stats_are;
        all_sent = r.all_sent;
        parsers_are = r.parsers_are;
      }
