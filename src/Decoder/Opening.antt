-- ===== src/Decoder/Opening.antt =====
-- stream_decode.cpp: the stream and the decoder are chosen when the demuxer has opened its input.
use otl.Common.{ℕ, suc, Bool, false, List, [], ◌∷◌, Option, none, some, if◌then◌else◌, get_elem?}
use otl.Decoder.{Codec, Decoder, Stream, Setup, and_then}

-- The first video stream, and the index as it is when there is none.
abbrev pub first_video : List Stream → Option ℕ
first_video [] = none
first_video (s ∷ ss) = if s.is_video then some 0 else suc_of (first_video ss)
  where
    suc_of : Option ℕ → Option ℕ
    suc_of none = none
    suc_of (some i) = some (suc i)

abbrev pub set_index : Decoder → Option ℕ → Decoder
set_index d none = d
set_index d (some i) = record d { video_stream_index = i }

pub get_video_stream_index : Decoder → List Stream → Decoder
get_video_stream_index d streams = set_index d (first_video streams)

-- Whether 0 was returned is not used by the caller. A context that was allocated is kept when its
-- parameters or the decoder's opening fail.
abbrev pub create_with : Decoder → Setup → Option Stream → Option Decoder
create_with d setup none = none
create_with d setup (some s) = some (
    if setup.decoder_found
    then record d { dec_ctx = if setup.allocated then some s.codec else none }
    else d)

pub create_video_decoder : Decoder → List Stream → Setup → Option Decoder
create_video_decoder d streams setup =
    let indexed = get_video_stream_index d streams in
    create_with indexed setup (get_elem? streams indexed.video_stream_index)

abbrev pub if_external : Decoder → Option Codec → Option Decoder → Option Decoder
if_external d (some c) created = some d
if_external d none created = created

-- `onAvformatOpened`; the function that was set is called first and is left out.
pub on_avformat_opened : Decoder → List Stream → Setup → Bool → Option Decoder
on_avformat_opened d streams setup is_h264_format =
    and_then (if_external d d.external_dec_ctx (create_video_decoder d streams setup))
      (λ e. some (if is_h264_format then e else record e { is_waiting_iframe = false }))
