-- ===== src/Proxy/Fake.antt =====
-- proxy/fake_response.py: the answer that a blocked request gets in place of the upstream's.
-- `template` gives the two sentences of `TEMPLATES`; ids and times are left out.
use nf_safety_hub.Prelude.{
  Bool, true, false, Option, none, some, List, [], ◌∷◌, ◌++◌, if◌then◌else◌, head?, get_or_else,
  ◌≡◌, refl, ap,
}
use nf_safety_hub.Prelude.Text.{Text, str, ◌==◌}
use nf_safety_hub.Json.{Value, string, Fields, get}
use nf_safety_hub.Engine.Results.{ScannerResult, AggregatedScanResult, block_result}

-- `TEMPLATES`
pub record Templates : Type 0 where
  pub block : Text
  pub warn : Text

unfoldable pub template_of : Templates → Text → Text
template_of templates level =
    if level == str "block"
    then templates.block
    else if level == str "warn"
    then templates.warn
    else templates.block

-- `ScannerResult(hit=False)`
unfoldable pub no_result : ScannerResult
no_result = record {
  hit = false;
  rule_id = [];
  rule_name = [];
  level = str "pass";
  matched_text = [];
  position = (0, 0);
  scanner_type = [];
  description = [];
}

abbrev first_of_both : Option ScannerResult → Option ScannerResult → ScannerResult
first_of_both (some r) other = r
first_of_both none other = get_or_else other no_result

-- `_select_result` of an aggregated result
unfoldable pub select_result : AggregatedScanResult → ScannerResult
select_result a = first_of_both (block_result a) (head? a.results)

-- One chunk of the streamed answer: its delta, and whether it ends the answer.
pub data Chunk : Type 0 where
  delta : Text → Chunk
  finish : Chunk
  sentinel : Chunk

abbrev emit : Text → List Chunk → List Chunk
emit text rest = delta text ∷ rest

-- the loop of `_stream_fake_chunks`, two characters at a time
unfoldable pub delta_chunks : Text → List Chunk
delta_chunks [] = []
delta_chunks (c ∷ []) = delta (c ∷ []) ∷ []
delta_chunks (c ∷ d ∷ cs) = delta (c ∷ d ∷ []) ∷ delta_chunks cs

unfoldable pub stream_fake_chunks : Text → List Chunk
unfolding delta_chunks
stream_fake_chunks content = delta_chunks content ++ finish ∷ sentinel ∷ []

pub data FakeBody : Type 0 where
  whole : Text → FakeBody
  streamed : List Chunk → FakeBody

pub record FakeResponse : Type 0 where
  pub model : Value
  pub body : FakeBody

-- `generate_fake_response`
unfoldable pub generate_fake_response :
    Templates → Fields → AggregatedScanResult → Bool → FakeResponse
unfolding template_of select_result stream_fake_chunks
generate_fake_response templates request_body scan_result is_stream =
    let template = template_of templates (select_result scan_result).level in
    record {
      model = get_or_else (get (str "model") request_body) (string (str "gpt-3.5-turbo"));
      body = if is_stream then streamed (stream_fake_chunks template) else whole template;
    }

-- What a client that concatenates the deltas reads.
abbrev pub read_chunks : List Chunk → Text
read_chunks [] = []
read_chunks (delta text ∷ rest) = text ++ read_chunks rest
read_chunks (finish ∷ rest) = read_chunks rest
read_chunks (sentinel ∷ rest) = read_chunks rest

abbrev pub read_body : FakeBody → Text
read_body (whole text) = text
read_body (streamed chunks) = read_chunks chunks

read_chunks-delta_chunks :
    (content : Text) → read_chunks (delta_chunks content ++ finish ∷ sentinel ∷ []) ≡ content
unfolding delta_chunks
read_chunks-delta_chunks [] = refl
read_chunks-delta_chunks (c ∷ []) = refl
read_chunks-delta_chunks (c ∷ d ∷ cs) = ap (λ t. c ∷ d ∷ t) (read_chunks-delta_chunks cs)

-- A client reads the same sentence from the streamed and from the whole answer: the template of the
-- level of the result that is answered.
pub read_body-generate_fake_response :
    (templates : Templates) (request_body : Fields) (a : AggregatedScanResult) (is_stream : Bool)
    → read_body (generate_fake_response templates request_body a is_stream).body
      ≡ template_of templates (select_result a).level
unfolding generate_fake_response
read_body-generate_fake_response templates request_body a true =
    read_chunks-delta_chunks (template_of templates (select_result a).level)
read_body-generate_fake_response templates request_body a false = refl
