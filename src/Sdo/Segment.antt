-- ===== src/Sdo/Segment.antt =====
-- core/src/sdo/mod.rs: the frames of the segment phase.
pub mod RoundTrip
use canopen_rs.Base.{
  ℕ, ◌-◌, ◌*◌, ◌/◌, Bool, true, false, not, List, [], ltb, ◌==◌, if◌then◌else◌, length, get_or,
  take, bit_and, bit_or,
}
use canopen_rs.Types.{Result, ok, err, bad_length, unexpected_command}
use canopen_rs.Sdo.Payload.{
  Payload, from_1, ccs_download_segment, ccs_upload_segment, scs_download_segment, cs_mask,
  toggle_bit, no_more_segments, segment_data_max,
}

pub record Segment : Type 0 where
  pub toggle : Bool
  pub last : Bool
  pub content : List ℕ

-- A zeroed payload with its command byte, and some bytes copied to `p[1..]`.
abbrev pub segment_frame : ℕ → List ℕ → Payload
segment_frame command content = record {
  b0 = command;
  b1 = get_or content 0 0;
  b2 = get_or content 1 0;
  b3 = get_or content 2 0;
  b4 = get_or content 3 0;
  b5 = get_or content 4 0;
  b6 = get_or content 5 0;
  b7 = get_or content 6 0;
}

-- The command byte: the count of unused bytes, the toggle bit and the mark of the last segment.
abbrev pub segment_command : ℕ → Bool → Bool → ℕ
segment_command len toggle last =
    let n = segment_data_max - len in
    let unused = bit_and (n * 2) 0x0e in
    let toggled = if toggle then bit_or unused toggle_bit else unused in
    if last then bit_or toggled no_more_segments else toggled

unfoldable pub encode_data_segment : List ℕ → Bool → Bool → Result Payload
encode_data_segment content toggle last =
    if ltb segment_data_max (length content)
    then err bad_length
    else ok (segment_frame (segment_command (length content) toggle last) content)

unfoldable pub decode_data_segment : Payload → Result Segment
decode_data_segment p =
    if not (bit_and p.b0 cs_mask == ccs_download_segment)
    then err unexpected_command
    else let n = bit_and (p.b0 / 2) 0x07 in
      if ltb segment_data_max n
      then err bad_length
      else ok (record {
        toggle = not (bit_and p.b0 toggle_bit == 0);
        last = not (bit_and p.b0 no_more_segments == 0);
        content = take (segment_data_max - n) (from_1 p);
      })

-- The frames that carry a command specifier and a toggle bit only.
abbrev pub toggle_frame : ℕ → Bool → Payload
toggle_frame cs toggle = segment_frame (bit_or cs (if toggle then toggle_bit else 0)) []

abbrev pub decode_toggle : ℕ → Payload → Result Bool
decode_toggle cs p =
    if not (bit_and p.b0 cs_mask == cs)
    then err unexpected_command
    else ok (not (bit_and p.b0 toggle_bit == 0))

unfoldable pub encode_download_segment_response : Bool → Payload
encode_download_segment_response = toggle_frame scs_download_segment

unfoldable pub decode_download_segment_response : Payload → Result Bool
decode_download_segment_response = decode_toggle scs_download_segment

unfoldable pub encode_upload_segment_request : Bool → Payload
encode_upload_segment_request = toggle_frame ccs_upload_segment

unfoldable pub decode_upload_segment_request : Payload → Result Bool
decode_upload_segment_request = decode_toggle ccs_upload_segment
