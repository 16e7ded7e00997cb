-- ===== src/Application/AnswerTests.antt =====
-- What the relay sends, at concrete inputs: main/router.c, main/handlers_stub.c and main/deletion.c.
use wisp_esp.Base.{◌≡◌, refl, true, [], ◌∷◌, ◌++◌, some, if◌then◌else◌, bytes_eq, find_entry}
use wisp_esp.Protocol.{Text, Event, is_relay_ok, relay_ok}
use wisp_esp.Storage.Tests.{disk, disk_laws, flash, plain, note, once}
use wisp_esp.Storage.Query.{none_or_any}
use wisp_esp.Storage.Types.{IndexEntry, Library}
use wisp_esp.Deletion.{DeletionRequest, Rounds, Store}
use wisp_esp.Router.{eose_msg, ok_msg}
use wisp_esp.Router.Dispatch.{dispatch_event, dispatch_req}
use wisp_esp.Router.Answers.{
  accepted, Owed, req_found, req_refusal, dispatch_event_answer, dispatch_req_answer,
}
use wisp_esp.Application.{socket_opened}
use wisp_esp.Storage.Ops.{
  save_event, save_locked, find_index_entry, write_event_file, open_event_file,
}
use wisp_esp.Storage.Persist.{init_index, load_index}
use wisp_esp.Validator.{check_event, check_policy, check_event_age, check_pow, check_duplicate}
use wisp_esp.Handlers.{store_event, apply_deletion, handle_event, handle_req}
use wisp_esp.Handlers.Answers.{broadcasts, handle_event-sent}
use wisp_esp.Handlers.Stored.{handle_event_stores}
use wisp_esp.Storage.Content.{lookup}
use wisp_esp.Handlers.Requests.{Answered, stored_results, handle_req_answers}
use wisp_esp.Application.Tests.{
  deletions, feed, notes, one_open, one_open-IsSound, connected, board-Laws, few, noon, round,
}
use wisp_esp.Application.Room.{add_has_room}

handle_event-sent_example :
    (handle_event one_open noon note).1.sent
    ≡ one_open.sent
      ++ (if is_relay_ok (handle_event one_open noon note).0 then broadcasts one_open note else [])
handle_event-sent_example = handle_event-sent one_open noon note

dispatch_event_answer_example :
    (text : Text) × ((dispatch_event one_open noon 5 note).sent
      ≡ one_open.sent
        ++ (if accepted one_open noon 5 note then broadcasts one_open note else [])
        ++ (5, ok_msg note.id (accepted one_open noon 5 note) text) ∷ [])
dispatch_event_answer_example = dispatch_event_answer one_open noon 5 note

dispatch_req_answer_example :
    Owed one_open noon 5 feed
      (req_found one_open noon 5 (notes ∷ []))
      (req_refusal one_open noon 5 feed (notes ∷ []))
      (dispatch_req one_open noon 5 feed (notes ∷ []))
dispatch_req_answer_example = dispatch_req_answer one_open noon 5 feed (notes ∷ [])

handle_req_answers_example :
    Answered 5 feed true
      (stored_results noon 0 one_open.store (notes ∷ []))
      one_open.sent
      (eose_msg feed)
      (handle_req one_open noon 5 feed (notes ∷ []))
handle_req_answers_example =
    handle_req_answers 5 feed one_open noon (notes ∷ []) one_open-IsSound.working.has_subs
      one_open-IsSound.working.has_storage
      (add_has_room 7 one_open one_open-IsSound board-Laws 5 feed (notes ∷ []) connected few
        λ n. refl)

-- The event is stored.
note_accepted : (handle_event one_open noon note).0 ≡ relay_ok
unfolding handle_event store_event apply_deletion check_event check_policy check_event_age check_pow
    check_duplicate save_event save_locked find_index_entry find_entry write_event_file
    open_event_file socket_opened init_index load_index
note_accepted = refl

handle_event_stores_example :
    (e : IndexEntry) × (lookup (handle_event one_open noon note).1.store.engine note.id ≡ some e)
handle_event_stores_example =
    handle_event_stores disk_laws one_open noon note one_open-IsSound.working.index
      one_open-IsSound.working.has_storage refl note_accepted

-- A store with one event, and a request that may not delete it.
abbrev shelf : Store disk flash
shelf = record { engine = once.1; files = once.2; saved = once.3 }

abbrev request : DeletionRequest
request = record { event_ids = feed ∷ []; addresses = []; pubkey = feed }

-- The library, with an identifier in hexadecimal and the test for the author.
abbrev reader : Library
reader = record plain {
  hex_to_bytes = λ s n k. some note.id;
  filter_matches = λ f e. none_or_any (bytes_eq e.pubkey) f.authors;
}

-- The request comes from another author than that of the event.
abbrev plea : Event
plea = record note { kind = 5; id = feed; pubkey = feed }

abbrev rounds : Rounds reader deletions disk flash
rounds = record { by_id = round; by_address = round; by_kind = round }
