-- ===== src/Pop3/Login/Safety.antt =====
-- Whom `pass_action` of src/parser/pop3_parserADT.c lets in.
use pdc_pop3d.Prelude.{
  ℕ, ◌+◌, ◌≡◌, refl, sym, ap, ◌∙◌, ◌⊎◌, inl, inr, true, false, Option, none, some, Option-cases,
  List, [], ◌∷◌, Bool-cases, ℤ, pos, negsuc,
}
use pdc_pop3d.CString.{Bytes, equal, eq_of_equal}
use pdc_pop3d.Global.{User}
use pdc_pop3d.Socket.{Wire, send_n_data}
use pdc_pop3d.Buffer.{Buffer}
use pdc_pop3d.Pop3.Reply
use pdc_pop3d.Pop3.State.{ConnectionStatus, State, Env, M, ◌>>=◌, ◌>>◌, pure, send_n, send_data}
use pdc_pop3d.Pop3.State.Send.{bind_run, after_send}
use pdc_pop3d.Pop3.Login.{pass_from, pass_action}

-- One of the users has the name and the password.
abbrev pub HasUser : List User → Bytes → Bytes → Type 0
HasUser [] name pass = ⊥
HasUser (u ∷ us) name pass = ((u.name ≡ name) × (u.pass ≡ pass)) ⊎ HasUser us name pass

none-some : {A : Type 0} {x : A} → none ≡ some x → ⊥
none-some h = cc

module _ {D : Type 0} where
  -- A step that leaves the status of the connection as it is.
  Keeps : {A : Type 0} → M D A → Type 0
  Keeps {A} m = (s s' : State D) (a : A) → m s ≡ some (a, s') → s'.conn.status ≡ s.conn.status

  after_status : {A : Type 0} → ConnectionStatus → Option (A × State D) → ConnectionStatus
  after_status c none = c
  after_status c (some (a, s)) = s.conn.status

  bind_none :
      {A B : Type 0} (m : M D A) (f : A → M D B) (s : State D) → m s ≡ none → (m >>= f) s ≡ none
  bind_none m f s e = rw (e, ◌>>=◌)

  bind-Keeps :
      {A B : Type 0} (m : M D A) (f : A → M D B)
      → Keeps m
      → ((a : A) → Keeps (f a))
      → Keeps (m >>= f)
  unfolding Keeps
  bind-Keeps m f km kf s s' b h = elim (Option-cases (m s)) [
    | inl e ↦ absurd (none-some (sym (bind_none m f s e) ∙ h))
    | inr ((a, s1), e) ↦ kf a s1 s' b (sym (bind_run m f e) ∙ h) ∙ km s s1 a e
  ]

  pure_keeps :
      {A : Type 0} (a b : A) (s s' : State D)
      → pure a s ≡ some (b, s')
      → s'.conn.status ≡ s.conn.status
  unfolding after_status
  pure_keeps a b s s' h = sym (ap (after_status s.conn.status) h)

  module _ (env : Env D) where
    send_n-Keeps : (bytes : Bytes) → Keeps (send_n env bytes)
    unfolding Keeps after_status send_n
    send_n-Keeps bytes s s' a h =
        elim (Option-cases (
          send_n_data env.kernel bytes s.conn.info_write_buff s.wire
            s.shared.stats.bytes_transfered)) [
              | inl e ↦ absurd (none-some (sym (ap finish e) ∙ h))
              | inr (x, e) ↦ sym (ap (after_status s.conn.status) (sym (ap finish e) ∙ h))
            ]
      where
        finish : Option (Buffer × Wire × ℕ) → Option (Unit {0} × State D)
        finish o = elim o [ none ↦ none | some (b, w, n) ↦ some (tt, after_send s b w n) ]

    send_data-Keeps : (text : Bytes) → Keeps (send_data env text)
    unfolding send_data
    send_data-Keeps text = send_n-Keeps _

    -- A reply with a result.
    reply-Keeps : (text : Bytes) (z : ℤ) → Keeps (send_data env text >> pure z)
    unfolding Keeps
    reply-Keeps text z =
        bind-Keeps (send_data env text) (λ _. pure z) (send_data-Keeps text)
          (λ _ s s' b h. pure_keeps z b s s' h)

    -- Another user's entry.
    pub pass_from_other :
        (i : ℕ) (u : User) (us : List User) (username argument : Bytes) (s : State D)
        → equal username u.name ≡ false
        → pass_from env i (u ∷ us) username argument s
          ≡ pass_from env (i + 1) us username argument s
    unfolding pass_from
    pass_from_other i u us username argument s e = rw e refl

    pass_from_wrong :
        (i : ℕ) (u : User) (us : List User) (username argument : Bytes) (s : State D)
        → equal username u.name ≡ true
        → equal u.pass argument ≡ false
        → pass_from env i (u ∷ us) username argument s
          ≡ (send_data env Reply.err_auth >> pure (negsuc 0))
              (record s { conn = record s.conn { username = [] } })
    unfolding pass_from
    pass_from_wrong i u us username argument s e f = rw (e, f) refl

    pass_from_safe :
        (i : ℕ) (us : List User) (username argument : Bytes) (s s' : State D) (r : ℤ)
        → pass_from env i us username argument s ≡ some (r, s')
        → (s'.conn.status ≡ s.conn.status) ⊎ HasUser us username argument
    unfolding pass_from Keeps
    pass_from_safe i [] username argument s s' r h =
        inl (reply-Keeps Reply.err_auth (pos 0) s s' r h)
    pass_from_safe i (u ∷ us) username argument s s' r h =
        elim (Bool-cases (equal username u.name)) [
          | inr e ↦ later (
              pass_from_safe (i + 1) us username argument s s' r
                (sym (pass_from_other i u us username argument s e) ∙ h))
          | inl e ↦ elim (Bool-cases (equal u.pass argument)) [
            | inl f ↦ inr (inl (sym (eq_of_equal username u.name e), eq_of_equal u.pass argument f))
            | inr f ↦ inl (
                reply-Keeps Reply.err_auth (negsuc 0)
                  (record s { conn = record s.conn { username = [] } }) s' r
                  (sym (pass_from_wrong i u us username argument s e f) ∙ h))
          ]
        ]
      where
        later :
            (s'.conn.status ≡ s.conn.status) ⊎ HasUser us username argument
            → (s'.conn.status ≡ s.conn.status) ⊎ HasUser (u ∷ us) username argument
        later (inl k) = inl k
        later (inr k) = inr (inr k)

    -- PASS changes the status of the connection only if one of the configured users has the name
    -- that USER gave and the password of the argument, whatever the kernel and the other threads do.
    pub pass_action_safe :
        (argument : Bytes) (s s' : State D) (r : ℤ)
        → pass_action env argument s ≡ some (r, s')
        → (s'.conn.status ≡ s.conn.status) ⊎ HasUser s.shared.conf.users s.conn.username argument
    unfolding pass_action Keeps
    pass_action_safe argument s s' r h = elim (Bool-cases (equal s.conn.username [])) [
      | inl e ↦ inl (reply-Keeps Reply.err_no_username (negsuc 0) s s' r (sym (unnamed e) ∙ h))
      | inr e ↦
          pass_from_safe 0 s.shared.conf.users s.conn.username argument s s' r (sym (named e) ∙ h)
    ]
      where
        unnamed :
            equal s.conn.username [] ≡ true
            → pass_action env argument s
              ≡ (send_data env Reply.err_no_username >> pure (negsuc 0)) s
        unnamed e = rw e refl

        named :
            equal s.conn.username [] ≡ false
            → pass_action env argument s
              ≡ pass_from env 0 s.shared.conf.users s.conn.username argument s
        named e = rw e refl
