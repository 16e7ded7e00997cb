-- ===== src/Deletion/Safety.antt =====
-- main/deletion.c: the events that a request may not delete by their identifiers.
use wisp_esp.Base.{◌≡◌, refl, arith, Bool, true, false, not, Option, none, some}
use wisp_esp.Protocol.{Bytes, Event}
use wisp_esp.Storage.Types.{Library}
use wisp_esp.Storage.Deleting.{decode}
use wisp_esp.Deletion.{DeletionRequest, DeletionLib}

-- No event, or one that the request may not delete.
abbrev pub is_protected : DeletionLib → DeletionRequest → Option Event → Bool
is_protected del request none = true
is_protected del request (some target) = not (del.authorized request target)

pub authorized_not :
    (lib : Library) (del : DeletionLib) (request : DeletionRequest) (buffer : Bool)
    (b : Option Bytes) (target : Event)
    → decode lib buffer b ≡ some target
    → del.authorized request target ≡ true
    → is_protected del request (decode lib true b) ≡ false
authorized_not lib del request true b target e a = rw e (rw a refl)
authorized_not lib del request false none target e a = cc
authorized_not lib del request false (some json) target e a =
    absurd (let nothing : decode lib false (some json) ≡ none = ground (arith) in cc)
