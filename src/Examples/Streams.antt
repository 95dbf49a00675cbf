-- ===== src/Examples/Streams.antt =====
-- A stream of segments.
use canopen_rs.Base.{ℕ, ◌<◌, ◌≡◌, refl, false, some, List, [], ◌∷◌, arith}
use canopen_rs.Types.{ok}
use canopen_rs.Types.Outcome.{done}
use canopen_rs.Sdo.Payload.{Payload}
use canopen_rs.Sdo.Segment.{Segment, decode_data_segment}
use canopen_rs.Sdo.Stream.{
  SegmentWriter, SegmentReader, is_done, next_segment, push, InStep, push-next_segment,
}
use canopen_rs.Examples.Containers.{bytes_vec}

abbrev writer : SegmentWriter
writer = record { content = 1 ∷ 2 ∷ 3 ∷ 4 ∷ 5 ∷ 6 ∷ 7 ∷ 8 ∷ 9 ∷ []; pos = 0; toggle = false }

abbrev reader : SegmentReader 32 (List ℕ)
reader = record { buf = []; toggle = false; complete = false }

starts-InStep : InStep writer reader
starts-InStep = record { within = omega arith; held = refl; same_toggle = refl }

push-next_segment_example :
    (w' : SegmentWriter) × (p : Payload) × (seg : Segment) × (next_segment writer
      ≡ done (w', some p))
    × (decode_data_segment p ≡ ok seg)
    × ((push reader seg).1 ≡ ok tt)
    × InStep w' (push reader seg).0
    × (0 < w'.pos)
    × ((push reader seg).0.complete ≡ is_done w')
push-next_segment_example =
    push-next_segment writer reader starts-InStep refl (omega arith) (omega arith)
