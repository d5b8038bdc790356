-- ===== src/Adapter/Image.antt =====
-- gateway/subnets/sn19_image.py and gateway/subnets/sn62_code.py: what their adapters convert. `clean`
-- is `sanitize_text` of gateway/subnets/base.py on a text, and `b64decode` the decoder of that name,
-- none where it raises; the drawn ids and the times are arguments.
use Prim.Native.String.{count}
use tao_gateway.Base.{
  ℕ, zero, suc, ◌≡◌, refl, ◌-◌, ◌%◌, String, str_append, prefix, Bool, true, false, ◌&&◌, ◌||◌,
  Option, none, some, List, [], ◌∷◌, nat_beq, if◌then◌else◌,
}
use tao_gateway.Adapter.{Converted, converted, invalid}
use tao_gateway.Adapter.Search.{get_or, is_text}

abbrev pub png_magic : List ℕ
png_magic = 137 ∷ 80 ∷ 78 ∷ 71 ∷ []

abbrev pub jpeg_magic : List ℕ
jpeg_magic = 255 ∷ 216 ∷ 255 ∷ []

pub record ImageRequest : Type 0 where
  pub prompt : String
  pub size : Option String
  pub style : Option String

pub record ImageGenSynapse : Type 0 where
  pub prompt : String
  pub size : String
  pub style : String
  pub image_data : String
  pub revised_prompt : String

-- `value or other`
abbrev pub text_or : String → String → String
text_or other value = if is_text value then value else other

unfoldable pub image_synapse : ImageRequest → ImageGenSynapse
image_synapse request = record {
  prompt = request.prompt;
  size = get_or "1024x1024" request.size;
  style = text_or "natural" (get_or "" request.style);
  image_data = "";
  revised_prompt = "";
}

-- The body holds one image.
pub record ImageBody : Type 0 where
  pub created : ℕ
  pub b64_json : String
  pub revised_prompt : Option String

abbrev pub image_body : ℕ → ImageGenSynapse → Converted ImageBody
image_body created synapse =
    if is_text synapse.image_data
    then converted (record {
      created = created;
      b64_json = synapse.image_data;
      revised_prompt =
          (if is_text synapse.revised_prompt then some synapse.revised_prompt else none);
    })
    else invalid "unknown" "sn19"

-- Whether bytes begin with others.
abbrev pub begins_with : List ℕ → List ℕ → Bool
begins_with bytes [] = true
begins_with [] (m ∷ magic) = false
begins_with (b ∷ bytes) (m ∷ magic) = nat_beq b m && begins_with bytes magic

-- `"=" * n`
abbrev times : ℕ → String
times zero = ""
times (suc n) = str_append "=" (times n)

-- The base64 of the first characters, padded to a multiple of 4.
unfoldable pub header_text : String → String
unfolding prefix
header_text b64_data =
    let snippet = prefix 16 b64_data in str_append snippet (times ((4 - count snippet % 4) % 4))

abbrev is_image : Option (List ℕ) → Bool
is_image none = false
is_image (some header_bytes) =
    begins_with header_bytes png_magic || begins_with header_bytes jpeg_magic

-- `_validate_image_header`: whether it does not raise.
unfoldable pub validate_image_header : (String → Option (List ℕ)) → String → Bool
validate_image_header b64decode b64_data = is_image (b64decode (header_text b64_data))

abbrev clean_prompt : (String → String) → Option String → Option String
clean_prompt clean none = none
clean_prompt clean (some p) = if is_text p then some (clean p) else some p

-- `sanitize_output`
unfoldable pub sanitize_image :
    (String → String) → (String → Option (List ℕ)) → ImageBody → Converted ImageBody
sanitize_image clean b64decode body =
    let body' : ImageBody = record body {
      revised_prompt = clean_prompt clean body.revised_prompt;
    } in
    if is_text body.b64_json
    then if validate_image_header b64decode body.b64_json
      then converted body'
      else invalid "unknown" "sn19"
    else converted body'

pub record CodeRequest : Type 0 where
  pub model : Option String
  pub prompt : String
  pub language : Option String
  pub context : Option String

pub record CodeSynapse : Type 0 where
  pub prompt : String
  pub language : String
  pub context : String
  pub code : String
  pub completion_language : String

unfoldable pub code_synapse : CodeRequest → CodeSynapse
code_synapse request = record {
  prompt = request.prompt;
  language = get_or "" request.language;
  context = get_or "" request.context;
  code = "";
  completion_language = "";
}

-- The body holds one choice.
pub record CodeBody : Type 0 where
  pub id : String
  pub created : ℕ
  pub model : String
  pub code : String
  pub language : String

abbrev pub code_body : String → ℕ → CodeRequest → CodeSynapse → Converted CodeBody
code_body id created request synapse =
    if is_text synapse.code
    then converted (record {
      id = id;
      created = created;
      model = get_or "tao-sn62" request.model;
      code = synapse.code;
      language = text_or (get_or "" request.language) synapse.completion_language;
    })
    else invalid "unknown" "sn62"

-- `sanitize_output`, which leaves the code as it is.
abbrev pub sanitize_code : (String → String) → CodeBody → CodeBody
sanitize_code clean body = record body { language = clean body.language }

-- A decoder that gives these bytes for each text.
abbrev decode_all : List ℕ → String → Option (List ℕ)
decode_all bytes s = some bytes

png_passes : validate_image_header (decode_all (137 ∷ 80 ∷ 78 ∷ 71 ∷ 13 ∷ [])) "iVBORw" ≡ true
unfolding validate_image_header header_text prefix
png_passes = refl

gif_fails : validate_image_header (decode_all (71 ∷ 73 ∷ 70 ∷ [])) "R0lG" ≡ false
unfolding validate_image_header header_text prefix
gif_fails = refl

header_padded : header_text "iVBORw" ≡ "iVBORw=="
unfolding header_text prefix
header_padded = refl
