-- ===== src/Tools.antt =====
-- The programs that sign a user in through the client library: cmd/xdauth-login, cmd/xdauth-pam,
-- cmd/xdauth-pam-native and cmd/xdauth-sshd. What they share is here, the programs are the children.
pub mod Login
pub mod Pam
pub mod NativePam
pub mod Sshd
pub mod Laws
use xdauth.Client.{
  StartRequest, Session, StartWireRequest, StartWireResponse, PollWireResponse, Outcome, start,
  poll,
}
use xdauth.Machine.{Artifact}
use xdauth.Platform.{Platform}
use xdauth.Prelude.{ℕ, List, Option}
use xdauth.Text.{Text}

-- The broker as the client meets it: what a start is answered, and the answers to its polls until
-- the context is done; and the random bytes of the client.
pub record World : Type 0 where
  pub send : Text → StartWireRequest → Option (ℕ × Option StartWireResponse)
  pub answers : List (Option (ℕ × Option PollWireResponse))
  pub random : Option Text

-- What a program writes.
pub data Line : Type 0 where
  -- the link and the code
  prompt : Text → Text → Line
  waiting : Line
  says : Text → Line
  shows : Option Artifact → Line
  -- a failure, by what failed
  fails : Text → Line

pub record Exit : Type 0 where
  pub code : ℕ
  pub lines : List Line

module _ ⦃sys : Platform⦄ where
  abbrev pub start_in : World → StartRequest → Option Session
  start_in w req = start w.send req w.random

  -- What `Poll` returns.
  abbrev pub poll_in : World → Session → Outcome
  poll_in w sess = (poll sess w.answers).1
