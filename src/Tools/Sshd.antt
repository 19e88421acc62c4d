-- ===== src/Tools/Sshd.antt =====
-- cmd/xdauth-sshd/main.go. golang.org/x/crypto/ssh and package net are parameters: the handshake, the
-- channels and their requests are arguments.
pub mod Laws
use xdauth.Client.{StartRequest, Session, Result, Outcome, finished}
use xdauth.Machine.{Artifact}
use xdauth.Platform.{Platform}
use xdauth.Prelude.{
  ℕ, Bool, true, false, not, ◌||◌, List, [], ◌∷◌, ◌++◌, map, Option, none, some, is_empty,
  if◌then◌else◌,
}
use xdauth.Text.{Text, bytes, text_eq}
use xdauth.Tools.{World, start_in, poll_in}

-- What the callback of the keyboard-interactive method returns: the identity of the permissions, an
-- error, or the panic of a result without an artifact.
pub data Verdict : Type 0 where
  permitted : Text → Verdict
  refused : Verdict
  nil_artifact : Verdict

-- `conn.User()` and `conn.RemoteAddr()`, and whether the prompt can be written.
pub record Connection : Type 0 where
  pub user : Text
  pub remote_addr : Text
  pub challenge : Text → Bool

unfoldable pub verdict_of : Outcome → Verdict
verdict_of (finished res) =
    if not (text_eq res.status (bytes "approved"))
    then refused
    else elim res.artifact [ none ↦ nil_artifact | some a ↦ permitted a.identity ]
verdict_of _ = refused

abbrev pub instruction : Session → Text
instruction sess =
    bytes "xdauth: to finish signing in, visit:"
    ++ (10 ∷ 10 ∷ 32 ∷ 32 ∷ sess.verification_uri)
    ++ (10 ∷ 10 ∷ bytes "and enter the code: ")
    ++ sess.user_code
    ++ (10 ∷ 10 ∷ bytes "waiting for approval...")
    ++ 10 ∷ []

module _ ⦃sys : Platform⦄ where
  -- `net.SplitHostPort`, or the whole address where that fails.
  abbrev pub remote_host : Text → Text
  remote_host addr = elim (sys.split_host_port addr) [ none ↦ addr | some h ↦ h ]

  abbrev pub ssh_request : Text → Connection → StartRequest
  ssh_request broker_url c = record {
    broker_url = broker_url;
    login_hint = c.user;
    client_kind = bytes "ssh";
    client_host = remote_host c.remote_addr;
  }

  -- `keyboardInteractiveAuth`
  unfoldable pub keyboard_interactive_auth : World → Text → Connection → Verdict
  unfolding verdict_of
  keyboard_interactive_auth w broker_url c = elim (start_in w (ssh_request broker_url c)) [
    | none ↦ refused
    | some sess ↦
        if not (c.challenge (instruction sess)) then refused else verdict_of (poll_in w sess)
  ]

pub record ChannelRequest : Type 0 where
  pub kind : Text
  pub want_reply : Bool

-- What happens on a channel: a reply to a request, or text.
pub data ChannelEffect : Type 0 where
  reply : Bool → ChannelEffect
  writes : Text → ChannelEffect

abbrev pub reply_if : Bool → Bool → List ChannelEffect → List ChannelEffect
reply_if wanted ok rest = if wanted then reply ok ∷ rest else rest

abbrev pub identity_or_empty : Option Text → Text
identity_or_empty none = []
identity_or_empty (some i) = i

abbrev pub banner : Text → Option Text → Text
banner shell_message identity =
    shell_message ++ (10 ∷ bytes "logged in as: ") ++ identity_or_empty identity ++ 10 ∷ []

-- `serveSession`, for the identity of the permissions.
unfoldable pub serve_session : List ChannelRequest → Text → Option Text → List ChannelEffect
serve_session [] shell_message identity = []
serve_session (req ∷ reqs) shell_message identity =
    let rest = serve_session reqs shell_message identity in
    if text_eq req.kind (bytes "shell") || text_eq req.kind (bytes "exec")
    then reply_if req.want_reply true (writes (banner shell_message identity) ∷ [])
    else reply_if req.want_reply (text_eq req.kind (bytes "pty-req")) rest

-- A channel that the client opens, whether it can be accepted, and its requests.
pub record NewChannel : Type 0 where
  pub channel_type : Text
  pub accepted : Bool
  pub requests : List ChannelRequest

pub data ChannelOutcome : Type 0 where
  -- `Reject`
  rejected : ChannelOutcome
  not_accepted : ChannelOutcome
  serves : List ChannelEffect → ChannelOutcome

unfoldable pub open_channel : Text → Option Text → NewChannel → ChannelOutcome
unfolding serve_session
open_channel shell_message identity ch =
    if not (text_eq ch.channel_type (bytes "session"))
    then rejected
    else if not ch.accepted
    then not_accepted
    else serves (serve_session ch.requests shell_message identity)

-- `handleConn`, for a handshake that failed, or succeeded with these permissions.
unfoldable pub handle_conn : Option (Option Text) → Text → List NewChannel → List ChannelOutcome
unfolding open_channel
handle_conn none shell_message chans = []
handle_conn (some identity) shell_message chans = map (open_channel shell_message identity) chans

-- `loadOrGenerateHostKey`, with the reading, the parsing and the generation of a key, `none` for an
-- error.
unfoldable pub load_or_generate_host_key :
    {Signer : Type 0}
    → (read : Text → Option Text) → (parse : Text → Option Signer) → (generated : Option Signer)
    → Text
    → Option Signer
load_or_generate_host_key read parse generated path =
    if not (is_empty path)
    then elim (read path) [ none ↦ none | some key ↦ parse key ]
    else generated

-- `run`: the exit code, for a host key and for whether the address can be listened on; with both it
-- serves until the listener fails or is closed.
unfoldable pub sshd_run : {Signer : Type 0} → Text → Option Signer → Bool → ℕ
sshd_run broker_url host_key listens =
    if is_empty broker_url
    then 2
    else elim host_key [ none ↦ 1 | some _ ↦ if not listens then 1 else 0 ]
