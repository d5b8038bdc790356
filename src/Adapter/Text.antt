-- ===== src/Adapter/Text.antt =====
-- gateway/subnets/sn1_text.py: what the adapter of the text subnet converts. `clean` is
-- `sanitize_text` of gateway/subnets/base.py on a text, and `dumps` is `json.dumps`; the drawn ids and
-- the times are arguments. A chunk is decoded.
use tao_gateway.Base.{ℕ, String, str_append, Bool, Option, none, some, List, [], ◌∷◌, if◌then◌else◌}
use tao_gateway.Adapter.Search.{get_or, is_text}

-- A message of a request; its content is none where it is no text.
pub record ChatMessage : Type 0 where
  pub role : String
  pub content : Option String

pub record TextGenSynapse : Type 0 where
  pub roles : List String
  pub messages : List String
  pub completion : String

abbrev add_message :
    String → Option String → Option (List String × List String) → Option (List String × List String)
add_message role (some content) (some (roles, contents)) = some (role ∷ roles, content ∷ contents)
add_message role _ _ = none

-- `_extract_messages`; none is its `ValueError`.
unfoldable pub extract_messages : List ChatMessage → Option (List String × List String)
extract_messages [] = some ([], [])
extract_messages (m ∷ messages) = add_message m.role m.content (extract_messages messages)

abbrev synapse_of : Option (List String × List String) → Option TextGenSynapse
synapse_of none = none
synapse_of (some (roles, messages)) =
    some (record { roles = roles; messages = messages; completion = "" })

-- `to_synapse` and `to_streaming_synapse`
unfoldable pub text_synapse : List ChatMessage → Option TextGenSynapse
text_synapse messages = synapse_of (extract_messages messages)

-- The choices hold one message of the assistant; the counts of tokens are 0.
pub record ChatBody : Type 0 where
  pub id : String
  pub created : ℕ
  pub model : String
  pub content : String

abbrev pub chat_body : String → ℕ → Option String → TextGenSynapse → ChatBody
chat_body id created model synapse = record {
  id = id;
  created = created;
  model = get_or "tao-sn1" model;
  content = synapse.completion;
}

-- `process_streaming_response`: the texts that it yields, and the completion after them.
unfoldable pub process_streaming_response : List String → String → List String × String
process_streaming_response [] completion = ([], completion)
process_streaming_response (decoded ∷ chunks) completion =
    let (yielded, after) =
      process_streaming_response chunks
        (if is_text decoded then str_append completion decoded else completion) in
    ((if is_text decoded then decoded ∷ yielded else yielded), after)

pub record ChatChunk : Type 0 where
  pub id : String
  pub created : ℕ
  pub model : String
  pub role : Option String
  pub content : Option String
  pub finish_reason : Option String

abbrev pub data_line : (ChatChunk → String) → ChatChunk → String
data_line dumps chunk = str_append (str_append "data: " (dumps chunk)) "\n\n"

module _ (clean : String → String) where
  -- `sanitize_output`
  abbrev pub sanitize_chat : ChatBody → ChatBody
  sanitize_chat body = record body { content = clean body.content }

  abbrev pub format_stream_chunk :
      (ChatChunk → String) → String → String → String → ℕ → Bool → String
  format_stream_chunk dumps chunk chunk_id model created include_role = data_line dumps (record {
    id = chunk_id;
    created = created;
    model = model;
    role = (if include_role then some "assistant" else none);
    content = some (clean chunk);
    finish_reason = none;
  })

abbrev pub format_stream_done : (ChatChunk → String) → String → String → ℕ → String
format_stream_done dumps chunk_id model created =
    str_append
      (data_line dumps (record {
        id = chunk_id;
        created = created;
        model = model;
        role = none;
        content = none;
        finish_reason = some "stop";
      }))
      "data: [DONE]\n\n"
