-- ===== src/Adapter/Stream/Loop.antt =====
-- What the loop over the miner's stream in `_stream_generator` of gateway/subnets/base.py yields.
use tao_gateway.Base.{
  ℕ, ◌≡◌, refl, ap, any, String, if◌then◌else◌, inl, inr, Bool, true, false, not, ◌&&◌, arith, List,
  [], ◌∷◌, ◌++◌, All, str_eq, Bool-cases,
}
use tao_gateway.Routing.Float.{Floats}
use tao_gateway.Routing.Scorer.{Config}
use tao_gateway.Routing.Selector.{AxonInfo}
use tao_gateway.Adapter.{
  AdapterConfig, Sse, sse_error, ttft, chunk, sse_done, stream_done, Chunk, MinerStream,
  stream_chunks, shown_first,
}

module _ (x : Floats) (scorer_config : Config x) (axon_uid : AxonInfo → ℕ)
    (config : AdapterConfig) where
  abbrev Event : Type 0
  Event = Sse x scorer_config axon_uid config

  abbrev Miner : Type 0
  Miner = MinerStream x scorer_config axon_uid config

  -- The stop chunk or the terminator.
  abbrev pub is_last : Event → Bool
  is_last sse_done = true
  is_last stream_done = true
  is_last _ = false

  -- Exactly one event ends the stream, the last one.
  abbrev pub ends_once : List Event → Bool
  ends_once [] = false
  ends_once (e ∷ []) = is_last e
  ends_once (e ∷ d ∷ out) = not (is_last e) && ends_once (d ∷ out)

  abbrev pub IsOpen : List Event → Type 0
  IsOpen out = All (λ d. is_last d ≡ false) out

  pub ends_once-append :
      (out : List Event) (e : Event) (rest : List Event)
      → IsOpen out
      → ends_once (out ++ (e ∷ rest)) ≡ ends_once (e ∷ rest)
  ends_once-append [] e rest a = refl
  ends_once-append (d ∷ []) e rest a = rw a.0 refl
  ends_once-append (d ∷ f ∷ out) e rest a = rw a.0 (ends_once-append (f ∷ out) e rest a.1)

  abbrev pub is_error : Event → Bool
  is_error (sse_error kind text) = true
  is_error _ = false

  -- The texts of the chunks among the events.
  abbrev pub texts_of : List Event → List String
  texts_of [] = []
  texts_of (chunk t role ∷ out) = t ∷ texts_of out
  texts_of (ttft ms ∷ out) = texts_of out
  texts_of (sse_error kind text ∷ out) = texts_of out
  texts_of (sse_done ∷ out) = texts_of out
  texts_of (stream_done ∷ out) = texts_of out

  abbrev pub Piece : Type 0
  Piece = Chunk x scorer_config axon_uid config

  -- The miner's chunks before the client is found to have left, without the empty ones.
  abbrev pub received : List Piece → List String
  received [] = []
  received (c ∷ chunks) =
      let rest = received chunks in
      if c.disconnected then [] else if str_eq c.text "" then rest else c.text ∷ rest

  abbrev pub has_left : List Piece → Bool
  has_left chunks = any (λ (c : Piece). c.disconnected) chunks

  -- What the loop yields: the texts, and whether the client has left.
  pub record IsLoop (texts : List String) (left : Bool) (run : List Event × Bool) : Type 0 where
    pub open_out : IsOpen run.0
    pub no_error : any is_error run.0 ≡ false
    pub same_texts : texts_of run.0 ≡ texts
    pub same_left : run.1 ≡ left

  after_chunk :
      (first : Bool) (text : String) (latency : ℕ) (texts : List String) (left : Bool)
      (run : List Event × Bool)
      → IsLoop texts left run
      → IsLoop
          (text ∷ texts)
          left
          (shown_first x scorer_config axon_uid config first text latency run.0, run.1)
  after_chunk true text latency texts left run i = record {
    open_out = (refl, (refl, i.open_out));
    no_error = i.no_error;
    same_texts = ap (λ l. text ∷ l) i.same_texts;
    same_left = i.same_left;
  }
  after_chunk false text latency texts left run i = record {
    open_out = (refl, i.open_out);
    no_error = i.no_error;
    same_texts = ap (λ l. text ∷ l) i.same_texts;
    same_left = i.same_left;
  }

  pub stream_chunks-IsLoop :
      (first : Bool) (chunks : List Piece)
      → IsLoop
          (received chunks)
          (has_left chunks)
          (stream_chunks x scorer_config axon_uid config first chunks)
  unfolding stream_chunks
  stream_chunks-IsLoop first [] = record {
    open_out = tt;
    no_error = refl;
    same_texts = refl;
    same_left = refl;
  }
  stream_chunks-IsLoop first (c ∷ chunks) = elim (Bool-cases c.disconnected) [
    | inl gone ↦
        rw gone (record { open_out = tt; no_error = refl; same_texts = refl; same_left = refl })
    | inr there ↦ elim (Bool-cases (str_eq c.text "")) [
      | inr full ↦
          rw (there, full)
            (after_chunk first c.text c.latency _ _ _ (stream_chunks-IsLoop false chunks))
      | inl empty ↦ rw (there, empty) (stream_chunks-IsLoop first chunks)
    ]
  ]

  pub any-append :
      (out rest : List Event)
      → any is_error out ≡ false
      → any is_error (out ++ rest) ≡ any is_error rest
  any-append [] rest h = refl
  any-append (e ∷ out) rest h = ground (arith, any-append out rest)

  pub texts_of-append :
      (out rest : List Event) → texts_of rest ≡ [] → texts_of (out ++ rest) ≡ texts_of out
  texts_of-append [] rest h = h
  texts_of-append (chunk t role ∷ out) rest h = ap (λ l. t ∷ l) (texts_of-append out rest h)
  texts_of-append (ttft ms ∷ out) rest h = texts_of-append out rest h
  texts_of-append (sse_error kind text ∷ out) rest h = texts_of-append out rest h
  texts_of-append (sse_done ∷ out) rest h = texts_of-append out rest h
  texts_of-append (stream_done ∷ out) rest h = texts_of-append out rest h

  pub All-append : (out rest : List Event) → IsOpen out → IsOpen rest → IsOpen (out ++ rest)
  All-append [] rest a b = b
  All-append (e ∷ out) rest a b = (a.0, All-append out rest a.1 b)
