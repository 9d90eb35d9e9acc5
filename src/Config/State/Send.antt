-- ===== src/Config/State/Send.antt =====
-- What an answer of the configuration service does: `send_data_udp` of src/server_utils.c.
use pdc_pop3d.Prelude.{
  ℕ, ◌≡◌, refl, sym, ap, ◌∙◌, subst, Option, none, some, inl, inr, ltb, Bool-cases, Option-cases,
  length, take, drop, pos,
}
use pdc_pop3d.CString.{Bytes, cstr}
use pdc_pop3d.Step.{pure}
use pdc_pop3d.Step.Post.{Post, pure-Post, bind-Post, weaken-Post}
use pdc_pop3d.Step.Keeps.{Keeps}
use pdc_pop3d.Buffer.{Buffer, buffer_write_ptr, buffer_write_adv}
use pdc_pop3d.Global.{GlobalConfiguration}
use pdc_pop3d.Config.State.{
  ConfigState, Udp, max_command_length, is_minus_one, written, send_from, send_data_udp, say,
}

abbrev conf_after :
    {A : Type 0} → GlobalConfiguration → Option (A × ConfigState) → GlobalConfiguration
conf_after c none = c
conf_after c (some (a, s)) = s.conf

module _ (udp : Udp) where
  send_from-conf :
      (ptr n : ℕ) (b : Buffer) (s : ConfigState)
      → conf_after s.conf (send_from udp ptr n b s) ≡ s.conf
  unfolding send_from
  send_from-conf ptr n b s =
      elim (Bool-cases (is_minus_one (udp.sendto s.sends (take n (drop ptr b.cells))))) [
        | inl e ↦ rw e refl
        | inr e ↦ rw e refl
      ]

  send_data_udp-conf :
      (text : Bytes) (s : ConfigState) → conf_after s.conf (send_data_udp udp text s) ≡ s.conf
  unfolding send_data_udp
  send_data_udp-conf text s =
      let b = s.server.info_write_buff in
      let d = cstr text in
      elim (Bool-cases (ltb max_command_length (length d))) [
        | inl e ↦ rw e refl
        | inr e ↦ elim (Option-cases (buffer_write_ptr b)) [
          | inl p ↦ rw (e, p) refl
          | inr ((ptr, available), p) ↦ elim (Bool-cases (ltb available (length d))) [
            | inl f ↦ rw (e, p, f) refl
            | inr f ↦ elim (Option-cases (buffer_write_adv (written b ptr d) (pos (length d)))) [
              | inl q ↦ rw (e, p, f, q) refl
              | inr (b', q) ↦ rw (e, p, f, q) (send_from-conf ptr (length d) b' s)
            ]
          ]
        ]
      ]

  -- An answer leaves the configuration as it is.
  pub say-Post : (text : Bytes) (s : ConfigState) → Post (say udp text) s (λ _ s'. s'.conf ≡ s.conf)
  say-Post text s =
      bind-Post (λ _ s'. s'.conf ≡ s.conf) (λ _ s'. s'.conf ≡ s.conf) (send_data_udp udp text)
        (λ _. pure tt) s
        (record { holds = λ a s' h. ap (conf_after s.conf) (sym h) ∙ send_data_udp-conf text s })
        (λ a s' e. pure-Post (λ _ s'. s'.conf ≡ s.conf) tt s' e)

  -- What holds of the configuration holds after an answer too.
  pub say-Keeps :
      (I : GlobalConfiguration → Type 0) (text : Bytes) → Keeps (λ s. I s.conf) (say udp text)
  say-Keeps I text = record {
    kept = λ s i.
        weaken-Post (λ _ s'. s'.conf ≡ s.conf) (λ _ s'. I s'.conf) (say udp text) s
          (say-Post text s) (λ a s' e. subst I (sym e) i);
  }
