-- ===== src/Sdo/Session.antt =====
-- core/src/sdo/client.rs: the loop that its documentation shows, with a server at the other end.
-- Every request reaches the server, and every reply reaches the client.
pub mod Frames
pub mod Chunks
pub mod Download
pub mod DownloadLoop
pub mod Write
pub mod UploadLoop
pub mod Read
use canopen_rs.Base.{ℕ, zero, suc, ◌≡◌, refl, Option, none, some}
use canopen_rs.Heapless.{BoundedVec}
use canopen_rs.Types.Outcome.{Outcome, done, panicked}
use canopen_rs.Datatypes.ByteString.{max_string_len}
use canopen_rs.Datatypes.Value.{Value}
use canopen_rs.Objects.ObjectDictionary.{ObjectDictionary, EntryMap}
use canopen_rs.Sdo.Payload.{Payload}
use canopen_rs.Sdo.Server.{SdoServer, handle}
use canopen_rs.Sdo.Client.{SdoClient, SdoEvent, send, complete, aborted, on_response}

-- How the loop ends: with an event of the client, with no reply, by a panic, or out of fuel.
pub data Ending (M Buf : Type 0) : Type 0 where
  finished : SdoClient Buf → SdoServer Buf → ObjectDictionary M → SdoEvent → Ending M Buf
  no_reply crashed out_of_fuel : Ending M Buf

module _ {M Buf : Type 0} ⦃m : EntryMap M⦄ ⦃b : BoundedVec ℕ max_string_len Buf⦄ where
  -- One unit of fuel is one exchange of a request and its reply.
  unfoldable pub run :
      ℕ → SdoClient Buf → SdoServer Buf → ObjectDictionary M → Payload → Ending M Buf
  run zero c s od frame = out_of_fuel
  run (suc fuel) c s od frame = elim (handle s od frame) [
    | panicked ↦ crashed
    | done (s', od', reply) ↦ elim reply [
      | none ↦ no_reply
      | some resp ↦ elim (on_response c resp) [
        | panicked ↦ crashed
        | done (c', event) ↦ elim event [
          | send next ↦ run fuel c' s' od' next
          | complete value ↦ finished c' s' od' (complete value)
          | aborted code ↦ finished c' s' od' (aborted code)
        ]
      ]
    ]
  ]

  -- The loop from the client's first request on.
  unfoldable pub drive :
      ℕ → Outcome (SdoClient Buf × Payload) → SdoServer Buf → ObjectDictionary M → Ending M Buf
  drive fuel start s od = elim start [
    | panicked ↦ crashed
    | done (c, frame) ↦ run fuel c s od frame
  ]

  pub run_sends :
      (fuel : ℕ) (c : SdoClient Buf) (s : SdoServer Buf) (od : ObjectDictionary M) (frame : Payload)
      {c' : SdoClient Buf} {s' : SdoServer Buf} {od' : ObjectDictionary M} {resp next : Payload}
      → handle s od frame ≡ done (s', od', some resp)
      → on_response c resp ≡ done (c', send next)
      → run (suc fuel) c s od frame ≡ run fuel c' s' od' next
  unfolding run
  run_sends fuel c s od frame h r = rw (h, run) (rw (r, run))

  pub run_completes :
      (fuel : ℕ) (c : SdoClient Buf) (s : SdoServer Buf) (od : ObjectDictionary M) (frame : Payload)
      {c' : SdoClient Buf} {s' : SdoServer Buf} {od' : ObjectDictionary M} {resp : Payload}
      {value : Option Value}
      → handle s od frame ≡ done (s', od', some resp)
      → on_response c resp ≡ done (c', complete value)
      → run (suc fuel) c s od frame ≡ finished c' s' od' (complete value)
  unfolding run
  run_completes fuel c s od frame h r = rw (h, run) (rw (r, run))
