-- ===== src/Deletion/Authority.antt =====
-- main/deletion.c: a whole deletion request and an event that is not by its author.
use wisp_esp.Base.{ℕ, ◌≡◌, true}
use wisp_esp.Base.Int.{ℤ}
use wisp_esp.Protocol.{Text, Event}
use wisp_esp.Storage.Types.{Library}
use wisp_esp.Deletion.{DeletionLib, author_filter}

-- What the deletion relies on: an event passes a filter for one author only if it is by that author.
pub record AuthorLaws (lib : Library) (del : DeletionLib) : Type 0 where
  pub own :
      (kind until : ℤ) (author : Text) (limit : ℕ) (ev : Event)
      → lib.filter_matches (author_filter kind author until limit) ev ≡ true
      → del.bytes_to_hex ev.pubkey ≡ author
