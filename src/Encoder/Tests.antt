-- ===== src/Encoder/Tests.antt =====
-- stream_encoder.cpp: concrete runs.
use otl.Common.{ℕ, ◌≡◌, refl, true, false, List, [], ◌∷◌, none, some, bytes_eq, if◌then◌else◌}
use otl.Common.Int.{pos, negsuc}
use otl.Log.Level.{codes, to_lower}
use otl.Encoder.{
  EncodeParam, Library, Context, Encoder, Frame, Sent, taken, Received, packet, ok, normalize,
  hw_family, hardware, software, candidates, id_of, probe, resolve_codec, encode, drain, send,
}
use otl.Encoder.Resolve.{family, number, in_order, Resolved, resolve_codec_lem}
use otl.Encoder.Packets.{Call, encodes, encodes_one, requests, calls_on, ready_in_all}
use otl.Encoder.History.{Handed, flag_after_all, sent_in_all, calls_on-Handed}

abbrev hd_param : EncodeParam
hd_param = record {
  codec_name = codes "X264";
  width = pos 1920;
  height = pos 1080;
  time_base = record { num = pos 0; den = pos 1 };
  frame_rate = record { num = pos 25; den = pos 1 };
  pix_fmt = pos 0;
  bit_rate = pos 0;
  gop_size = pos 25;
  max_b_frames = negsuc 0;
  thread_count = pos 0;
  crf = pos 23;
  qp = negsuc 0;
  preset = codes "fast";
  tune = [];
  profile = [];
  options = [];
  prefer_hardware = true;
  hw_accel = codes "QSV";
}

abbrev bare : ℕ → Context ℕ
bare codec = record {
  codec = codec;
  width = pos 0;
  height = pos 0;
  time_base = record { num = pos 0; den = pos 1 };
  framerate = record { num = pos 0; den = pos 1 };
  pix_fmt = negsuc 0;
  bit_rate = pos 200000;
  gop_size = pos 12;
  max_b_frames = pos 0;
  thread_count = pos 1;
}

-- FFmpeg with one encoder, under one name.
abbrev only : List ℕ → Library ℕ
only name = record {
  find_by_name = λ n. if bytes_eq n name then some 1 else none;
  find_by_id = λ id. none;
  alloc_context = λ codec. some (bare codec);
  open_codec = λ c opts. pos 0;
}

software_found : resolve_codec (only (codes "libx264")) hd_param ≡ some 1
unfolding resolve_codec candidates normalize hardware hw_family software id_of probe to_lower
software_found = refl

asked : candidates hd_param ≡ codes "h264_qsv" ∷ codes "h264" ∷ codes "libx264" ∷ []
unfolding candidates normalize hardware hw_family software to_lower
asked = refl

abbrev set_up : Encoder ℕ
set_up = record {
  ctx = some (bare 1);
  codec_par = false;
  force_idr = false;
  frame_count = 0;
  sent = [];
}

abbrev picture : ℕ → Frame
picture n = record { picture = n; key = false }

-- The encoder has no room for the frame: it is not taken, and the call reports success.
frame_lost :
    encode {P = ℕ} set_up (some (picture 1)) Sent.again (packet 7 ∷ Received.again ∷ [])
    ≡ some (
      record {
        ctx = some (bare 1);
        codec_par = false;
        force_idr = false;
        frame_count = 1;
        sent = some (picture 1) ∷ [];
      },
      7 ∷ [],
      ok,
    )
unfolding encode drain send
frame_lost = refl

abbrev some_calls : List (Call ℕ)
some_calls =
    encodes (some (picture 1)) taken (Received.again ∷ [])
    ∷ requests
    ∷ encodes (some (picture 2)) taken (packet 7 ∷ packet 8 ∷ Received.again ∷ [])
    ∷ encodes_one none Sent.eof (packet 9)
    ∷ []

-- "X264" stands for H.264.
abbrev any_param : EncodeParam
any_param = record hd_param { hw_accel = [] }

any_named : normalize any_param.codec_name ≡ family false
unfolding normalize to_lower
any_named = refl

resolve_codec_lem_example :
    Resolved
      (only (codes "libx264"))
      (in_order true false)
      (number false)
      (resolve_codec (only (codes "libx264")) any_param)
resolve_codec_lem_example =
    resolve_codec_lem (only (codes "libx264")) any_param false any_named refl

calls_on-Handed_example :
    Handed set_up []
      (ready_in_all some_calls)
      (flag_after_all false some_calls)
      (sent_in_all false some_calls)
      (calls_on (some (set_up, [])) some_calls)
calls_on-Handed_example =
    calls_on-Handed set_up (bare 1) some_calls [] refl (tt, (tt, (tt, (tt, tt))))
