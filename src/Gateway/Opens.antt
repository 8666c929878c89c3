-- ===== src/Gateway/Opens.antt =====
-- What a connection that `run_connection` of src/gateway/connection.rs has opened is like.
use diddycord.Base.{
  ℕ, ◌+◌, ◌*◌, ◌≤◌, ◌<◌, ◌≡◌, refl, true, List, [], ◌∷◌, Option, none, some, Str, arith, is_some,
  ◌&&◌, if◌then◌else◌, bytes, inl, inr, ◌⊎◌, ◌≢◌,
}
use diddycord.Base.Results.{Result, ok, err, ◌>>=◌}
use diddycord.Gateway.Recovery.{SessionState, AuthMode, can_resume, gateway_url}
use diddycord.Gateway.Connection.{NetworkStatus}
use mathlib.Core.Path.{subst}
use diddycord.Gateway.Greeting.{
  Greeting, send_identify, send_resume, effective_auth, connection_url, greeting,
}
use diddycord.Gateway.Control.{GatewayConfig}
use diddycord.Gateway.Protocol
use diddycord.Gateway.Protocol.{
  Incoming, text, silent, close, broken, ended, GatewayError, Outgoing, identify, resume, Written,
  done, late, failed, receive_hello, send_json,
}
use diddycord.Gateway.FirstBeat.{jitter-lt, Brings-range}
use diddycord.Gateway.Hello.{Brings, receive_hello-Brings}
use diddycord.Gateway.Opening.{
  Network, Opened, OpenError, or_missing, or_protocol, greeting_status, write_greeting, opened,
  open_connection,
}
use diddycord.Gateway.ResumeUrl.{IsResumeUrl, gateway_url-IsResumeUrl}
use diddycord.Gateway.Sessions.{effective_auth-ready}

-- The authentication that a connection uses: RESUME only where it was requested and the session has
-- an id, a URL and a sequence number.
abbrev pub mode : AuthMode → SessionState → AuthMode
mode AuthMode.identify session = AuthMode.identify
mode AuthMode.resume session =
    if is_some session.session_id && is_some session.resume_gateway_url && is_some session.seq
    then AuthMode.resume
    else AuthMode.identify

abbrev pub status_of : AuthMode → NetworkStatus
status_of AuthMode.identify = NetworkStatus.identifying
status_of AuthMode.resume = NetworkStatus.resuming

greeting_status_lem : (auth : AuthMode) → greeting_status auth ≡ status_of auth
unfolding greeting_status
greeting_status_lem AuthMode.identify = refl
greeting_status_lem AuthMode.resume = refl

effective_auth-mode :
    (requested : AuthMode) (session : SessionState)
    → effective_auth requested session ≡ mode requested session
unfolding effective_auth can_resume
effective_auth-mode AuthMode.identify session = refl
effective_auth-mode AuthMode.resume session = refl

module _ (net : Network) (config : GatewayConfig) (session : SessionState) where
  -- What has been written: IDENTIFY with the configuration, or RESUME with the session's own id and
  -- sequence number.
  abbrev pub IsGreeting : AuthMode → List Outgoing → Type 0
  IsGreeting AuthMode.identify wire =
      wire
      ≡ identify (record {
        op = 2;
        d = record {
          token = config.token;
          intents = config.intents;
          properties = record {
            os = net.os;
            browser = bytes "diddycord";
            device = bytes "diddycord";
          };
        };
      })
        ∷ []
  IsGreeting AuthMode.resume wire =
      (session_id : Str) × (seq : ℕ) × (session.session_id ≡ some session_id)
      × (session.seq ≡ some seq)
      × (wire
          ≡ resume (record {
            op = 6;
            d = record { token = config.token; session_id = session_id; seq = seq };
          })
            ∷ [])

  -- The URL that is connected to: for RESUME the session's own, without slashes at its end and with
  -- the query added.
  abbrev pub Target : AuthMode → Str → Type 0
  Target AuthMode.identify url = url ≡ bytes "wss://gateway.discord.gg/?v=9&encoding=json"
  Target AuthMode.resume url =
      (base : Str) × (session.resume_gateway_url ≡ some base) × IsResumeUrl base url

  connection_url-Target :
      (auth : AuthMode) (url : Str) → connection_url auth session ≡ some url → Target auth url
  unfolding connection_url
  connection_url-Target AuthMode.identify url h = ground (arith, h)
  connection_url-Target AuthMode.resume url h = go session.resume_gateway_url refl h
    where
      go :
          (base : Option Str)
          → session.resume_gateway_url ≡ base
          → (elim base as (λ _. Option Str) [ none ↦ none | some base ↦ some (gateway_url base) ])
            ≡ some url
          → Target AuthMode.resume url
      go none e h = cc
      go (some base) e h =
          (base, e, subst (IsResumeUrl base) (ground (arith, h)) (gateway_url-IsResumeUrl base))

  abbrev pub IsOpen : AuthMode → Opened → Type 0
  IsOpen auth o =
      (url : Str) × (interval : ℕ) × Target auth url
      × (net.connected url ≡ ok tt)
      × Brings interval net.incoming
      × (o.interval ≡ interval * 1000)
      × (net.now ≤ o.connection.next_heartbeat)
      × (o.connection.next_heartbeat < net.now + o.interval)
      × (o.connection.session ≡ session)
      × (o.connection.status ≡ status_of auth)
      × IsGreeting auth o.wire

  -- The error is that of an attempt to connect, of the wait for HELLO, or of the write.
  abbrev pub FromNetwork : AuthMode → GatewayError → Type 0
  FromNetwork auth error =
      ((url : Str) × Target auth url × (net.connected url ≡ err error))
      ⊎ ((receive_hello net.incoming ≡ err error) ⊎ (net.written ≢ done))

  abbrev pub Opens : AuthMode → Result Opened OpenError → Type 0
  Opens auth (ok o) = IsOpen auth o
  Opens auth (err (OpenError.protocol error)) = FromNetwork auth error
  Opens auth (err OpenError.missing) = ⊥

  -- What the write of a greeting puts on the wire.
  abbrev Writes : AuthMode → Result (List Outgoing) GatewayError → Type 0
  Writes auth (ok wire) = IsGreeting auth wire
  Writes auth (err _) = net.written ≢ done

  write_greeting-Writes :
      (auth : AuthMode) (g : Greeting)
      → greeting auth session ≡ some g
      → Writes auth (write_greeting net config g)
  unfolding greeting write_greeting Protocol.send_identify Protocol.send_resume send_json
  write_greeting-Writes AuthMode.identify send_identify h = go net.written refl
    where
      go :
          (w : Written)
          → net.written ≡ w
          → Writes AuthMode.identify
              (Protocol.send_identify w net.os config.token config.intents [])
      go done e = refl
      go late e = λ d. cc (e, d)
      go failed e = λ d. cc (e, d)
  write_greeting-Writes AuthMode.identify (send_resume id seq) h = cc
  write_greeting-Writes AuthMode.resume g h =
      go session.session_id refl session.seq refl g h net.written refl
    where
      go :
          (id : Option Str)
          → session.session_id ≡ id
          → (seq : Option ℕ) → session.seq ≡ seq
          → (g : Greeting)
          → (elim id as (λ _. Option Greeting) [
            | none ↦ none
            | some id ↦ elim seq as (λ _. Option Greeting) [
              | none ↦ none
              | some seq ↦ some (send_resume id seq)
            ]
          ])
            ≡ some g
          → (w : Written) → net.written ≡ w
          → Writes AuthMode.resume (write_greeting (record net { written = w }) config g)
      go none p seq q g h w e = cc
      go (some id) p none q g h w e = cc
      go (some id) p (some seq) q send_identify h w e = cc
      go (some id) p (some seq) q (send_resume id' seq') h done e = (id, seq, p, q, cc h)
      go (some id) p (some seq) q (send_resume id' seq') h late e = λ d. cc (e, d)
      go (some id) p (some seq) q (send_resume id' seq') h failed e = λ d. cc (e, d)

  finish :
      (auth : AuthMode) (url : Str) (connected : Result (Unit {0}) GatewayError)
      → Target auth url
      → net.connected url ≡ connected
      → (write : Result (List Outgoing) GatewayError) → Writes auth write
      → (hello : Result ℕ GatewayError) → receive_hello net.incoming ≡ hello
      → Opens auth (
          or_protocol connected >>= (λ _. or_protocol hello) >>= (λ interval.
            or_protocol write >>= (λ wire. ok (opened net session auth interval wire))))
  unfolding opened
  finish auth url (err error) target c write w hello r = inl (url, target, c)
  finish auth url (ok _) target c write w (err error) r = inr (inl r)
  finish auth url (ok _) target c (err error) w (ok interval) r = inr (inr w)
  finish auth url (ok _) target c (ok wire) w (ok interval) r =
      let brings = (receive_hello-Brings net.incoming interval).0 r in
      let (low, high) = Brings-range interval net.incoming brings in
      (
        url,
        interval,
        target,
        c,
        brings,
        refl,
        omega arith,
        omega (arith, jitter-lt net.entropy interval low high),
        refl,
        greeting_status_lem auth,
        w,
      )

  -- RESUME is used only where it was requested and the session has an id, a URL and a sequence
  -- number, else IDENTIFY. Opening a connection ends with an error only where the attempt to connect
  -- or the wait for HELLO meets this error or the write fails, and otherwise with a connection that
  -- is open; the attempt is made at the gateway's own URL for IDENTIFY, and for RESUME at the
  -- session's, trimmed of the slashes at its end and with the query added. Of a connection that is
  -- open the attempt has succeeded; HELLO has come in time, with the interval; the first heartbeat is
  -- due before an interval has passed; the session is as it was; and the one thing written is the
  -- greeting, which the status shows. It never fails for want of a part of the session.
  pub open_connection-Opens :
      (requested : AuthMode)
      → Opens (mode requested session) (open_connection net config session requested)
  unfolding open_connection opened
  open_connection-Opens requested =
      let auth = effective_auth requested session in
      let (has_url, has_greeting) = effective_auth-ready requested session in
      subst (λ auth. Opens auth (open_connection net config session requested))
        (effective_auth-mode requested session)
        (go auth (connection_url auth session) refl has_url (greeting auth session) refl
          has_greeting (receive_hello net.incoming) refl)
    where
      go :
          (auth : AuthMode) (url : Option Str)
          → connection_url auth session ≡ url
          → is_some url ≡ true
          → (g : Option Greeting) → greeting auth session ≡ g
          → is_some g ≡ true
          → (hello : Result ℕ GatewayError) → receive_hello net.incoming ≡ hello
          → Opens auth (
              or_missing url
              >>= (λ url. or_protocol (net.connected url))
              >>= (λ _. or_protocol hello)
              >>= (λ interval.
                  or_missing g
                  >>= (λ g. or_protocol (write_greeting net config g))
                  >>= (λ wire. ok (opened net session auth interval wire))))
      go auth none u h g e k hello r = cc
      go auth (some url) u h none e k hello r = cc
      go auth (some url) u h (some g) e k hello r =
          finish auth url (net.connected url) (connection_url-Target auth url u) refl
            (write_greeting net config g) (write_greeting-Writes auth g e) hello r
