-- ===== src/Encoder/Resolve.antt =====
-- stream_encoder.cpp: which encoder `resolveCodec` takes.
use otl.Common.{
  ◌≡◌, ◌⊎◌, inl, inr, refl, sym, ap, subst, ◌∙◌, ℕ, Bool, true, false, List, [], ◌∷◌, ◌++◌, Option,
  none, some, All, if◌then◌else◌,
}
use otl.Log.Level.{codes}
use otl.Encoder.{
  EncodeParam, CodecId, h264, hevc, Library, hw_family, hardware, software, is_name, candidates,
  normalize, id_of, or_else, probe, by_id, resolve_codec,
}

abbrev pub family : Bool → List ℕ
family false = codes "h264"
family true = codes "hevc"

abbrev pub number : Bool → CodecId
number false = h264
number true = hevc

-- The names that are tried, with hardware preferred or not.
abbrev pub in_order : Bool → Bool → List (List ℕ)
in_order true false =
    codes "h264_nvenc"
    ∷ codes "h264_qsv"
    ∷ codes "h264_amf"
    ∷ codes "h264_vaapi"
    ∷ codes "h264"
    ∷ codes "libx264"
    ∷ []
in_order true true =
    codes "hevc_nvenc"
    ∷ codes "hevc_qsv"
    ∷ codes "hevc_amf"
    ∷ codes "hevc_vaapi"
    ∷ codes "hevc"
    ∷ codes "libx265"
    ∷ []
in_order false false = codes "h264" ∷ codes "libx264" ∷ []
in_order false true = codes "hevc" ∷ codes "libx265" ∷ []

id_of-family : (is_hevc : Bool) → id_of (family is_hevc) ≡ some (number is_hevc)
unfolding id_of
id_of-family false = refl
id_of-family true = refl

candidates-in_order :
    (params : EncodeParam) (is_hevc : Bool)
    → normalize params.codec_name ≡ family is_hevc
    → params.hw_accel ≡ []
    → candidates params ≡ in_order params.prefer_hardware is_hevc
unfolding candidates hardware hw_family software
candidates-in_order params is_hevc e a =
    ap (λ n. hardware params n ++ software n) e
    ∙ ap (λ accel. tried params.prefer_hardware accel is_hevc) a
    ∙ go params.prefer_hardware is_hevc
  where
    tried : Bool → List ℕ → Bool → List (List ℕ)
    tried prefer accel k =
        (if prefer
          then (if is_name (family k) (codes "h264") then hw_family accel (codes "h264_") else [])
            ++ (if is_name (family k) (codes "hevc") then hw_family accel (codes "hevc_") else [])
          else [])
        ++ software (family k)

    go : (b k : Bool) → tried b [] k ≡ in_order b k
    go true true = refl
    go true false = refl
    go false true = refl
    go false false = refl

module _ {C : Type 0} (lib : Library C) where
  abbrev pub IsMissing : List ℕ → Type 0
  IsMissing name = lib.find_by_name name ≡ none

  -- The first name that FFmpeg has an encoder for.
  pub record Hit (names : List (List ℕ)) (codec : C) : Type 0 where
    pub before : List (List ℕ)
    pub name : List ℕ
    pub behind : List (List ℕ)
    pub split : names ≡ before ++ (name ∷ behind)
    pub missing : All IsMissing before
    pub has : lib.find_by_name name ≡ some codec

  abbrev pub Probed : List (List ℕ) → Option C → Type 0
  Probed names none = All IsMissing names
  Probed names (some codec) = Hit names codec

  later :
      (n : List ℕ) (names : List (List ℕ)) (o : Option C)
      → IsMissing n
      → Probed names o
      → Probed (n ∷ names) o
  later n names none m p = (m, p)
  later n names (some codec) m p = record {
    before = n ∷ p.before;
    name = p.name;
    behind = p.behind;
    split = ap (λ l. n ∷ l) p.split;
    missing = (m, p.missing);
    has = p.has;
  }

  probe_lem : (names : List (List ℕ)) → Probed names (probe lib names)
  unfolding probe
  probe_lem [] = tt
  probe_lem (n ∷ names) = go (lib.find_by_name n) refl (probe_lem names)
    where
      go :
          (o : Option C)
          → lib.find_by_name n ≡ o
          → Probed names (probe lib names)
          → Probed (n ∷ names) (or_else o (probe lib names))
      go none e p = later n names (probe lib names) e p
      go (some c) e p = record {
        before = [];
        name = n;
        behind = names;
        split = refl;
        missing = tt;
        has = e;
      }

  -- The first of the names, or else the encoder of a number.
  abbrev pub Resolved : List (List ℕ) → CodecId → Option C → Type 0
  Resolved names id none = All IsMissing names × (lib.find_by_id id ≡ none)
  Resolved names id (some codec) =
      Hit names codec ⊎ (All IsMissing names × (lib.find_by_id id ≡ some codec))

  probed :
      (names : List (List ℕ)) (id : CodecId)
      → Resolved names id (or_else (probe lib names) (lib.find_by_id id))
  probed names id = go (probe lib names) (probe_lem names)
    where
      by_number : (o : Option C) → lib.find_by_id id ≡ o → All IsMissing names → Resolved names id o
      by_number none e m = (m, e)
      by_number (some c) e m = inr (m, e)

      go : (o : Option C) → Probed names o → Resolved names id (or_else o (lib.find_by_id id))
      go none m = by_number (lib.find_by_id id) refl m
      go (some c) h = inl h

  -- If `codecName` stands for H.264 or H.265, in whatever spelling, and no kind of hardware is asked
  -- for, `resolveCodec` takes the first encoder that FFmpeg has among these: the ones for NVENC, QSV,
  -- AMF and VAAPI, in that order, if hardware is preferred, then the one that has the name of the
  -- codec, then libx264 or libx265. If it has none of them it takes the one that FFmpeg gives for the
  -- number of the codec, and fails if there is none.
  pub resolve_codec_lem :
      (params : EncodeParam) (is_hevc : Bool)
      → normalize params.codec_name ≡ family is_hevc
      → params.hw_accel ≡ []
      → Resolved
          (in_order params.prefer_hardware is_hevc)
          (number is_hevc)
          (resolve_codec lib params)
  unfolding resolve_codec
  resolve_codec_lem params is_hevc e a =
      subst (Resolved (in_order params.prefer_hardware is_hevc) (number is_hevc))
        (sym (
          ap (λ l. or_else (probe lib l) (by_id lib (id_of (normalize params.codec_name))))
            (candidates-in_order params is_hevc e a)
          ∙ ap
              (λ n.
                or_else (probe lib (in_order params.prefer_hardware is_hevc)) (by_id lib (id_of n)))
              e
          ∙ ap (λ i. or_else (probe lib (in_order params.prefer_hardware is_hevc)) (by_id lib i))
              (id_of-family is_hevc)))
        (probed (in_order params.prefer_hardware is_hevc) (number is_hevc))
