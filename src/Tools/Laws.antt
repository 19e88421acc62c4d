-- ===== src/Tools/Laws.antt =====
-- What the programs have in common when they let a user in.
use xdauth.Client.{StartRequest, Session, Result, finished}
use xdauth.Machine.{Artifact}
use xdauth.Platform.{Platform}
use xdauth.Prelude.{◌≡◌, Option, some, arith}
use xdauth.Text.{bytes}
use xdauth.Tools.{World, start_in, poll_in}

abbrev pub approved_result : Option Artifact → Result
approved_result a = record { status = bytes "approved"; artifact = a }

pub result-approved :
    (res : Result) → res.status ≡ bytes "approved" → res ≡ approved_result res.artifact
result-approved res e = ground (arith, e)

module _ ⦃sys : Platform⦄ where
  -- In this world the start of this request succeeds, and its polls end with an approval.
  pub record Approves (w : World) (req : StartRequest) (sess : Session) (a : Option Artifact)
      : Type 0 where
    pub started : start_in w req ≡ some sess
    pub approved : poll_in w sess ≡ finished (approved_result a)
