-- ===== src/Tests/Storage.antt =====
-- Rows and payloads for storage/.
use nf_safety_hub.Prelude.{
  ℕ, ◌≤◌, Bool, true, false, Option, none, some, List, [], ◌∷◌, map, length, eqb, here, there,
  if◌then◌else◌, ◌≡◌, inl, refl, arith,
}
use nf_safety_hub.Prelude.Text.{Text, str, ◌==◌}
use nf_safety_hub.Json.{
  Value, string, array, object, nil, cons, field, end, of_list, same, bool, int, float,
}
use nf_safety_hub.Json.Equality.{equals, loosely, exact_of}
use nf_safety_hub.Prelude.Dict.{lookup}
use nf_safety_hub.Storage.ImageAssets.{Web, Ip, Response}
use nf_safety_hub.Storage.ImageAssets.Fetch.{download_url, AllPublic, download_url-AllPublic}
use nf_safety_hub.Storage.Coverage.{
  Conversation, pending, mark_covered_by_group, is_prefix_trajectory, parse_trajectory,
}
use nf_safety_hub.Storage.Coverage.Job.{
  CoverageAnalysisConfig, Status, Surroundings, written, no_fault, on_commit, Progress,
  execute_coverage_job,
}
use nf_safety_hub.Storage.Coverage.Job.Ends.{Left, execute_coverage_job-Ends}
use nf_safety_hub.Storage.Coverage.Justified.{AreDistinct, IsSound}
use nf_safety_hub.Storage.Coverage.Batches.{mark_covered_by_group-IsSound}
use nf_safety_hub.Storage.Governance.{new_job}

-- A server of public and private hosts: "http://a" redirects to "http://b", which is private.
abbrev host_ip : Bool → Ip
host_ip private = record {
  is_private = private;
  is_loopback = false;
  is_link_local = false;
  is_multicast = false;
  is_reserved = false;
  is_unspecified = false;
}

abbrev redirect_to_b : Response
redirect_to_b = record { status_code = 302; location = str "b"; content_type = []; content = [] }

abbrev web : Web
web = record {
  urlparse = λ url. record { scheme = str "http"; hostname = url };
  ip_address = λ host. some (host_ip (host == str "b"));
  getaddrinfo = λ check host. none;
  get = λ check url. some redirect_to_b;
  join = λ url location. location;
  b64decode = λ s. some s;
  sha256 = λ s. str "hash";
  writable = λ path. true;
  max_size_bytes = 100;
}

download_url-AllPublic_example :
    AllPublic web 1 (download_url web (str "a")).0 × (length (download_url web (str "a")).0 ≤ 5)
download_url-AllPublic_example = download_url-AllPublic web (str "a")

abbrev two_images : Value
two_images = object (
    field (str "data")
      (array (
        cons (object (field (str "url") (string (str "a")) end))
          (cons (object (field (str "b64_json") (string (str "xyz")) end)) nil)))
      end)

abbrev request_id : Text
request_id = str "r1"

-- Trajectories are spelled by a letter for each message.
abbrev letters : Text → List Value
letters [] = []
letters (c ∷ cs) = string (c ∷ []) ∷ letters cs

abbrev loads : Text → Option Value
loads text = some (array (of_list (letters text)))

abbrev row : ℕ → Text → Text → Conversation
row id name trajectory = record {
  id = id;
  conversation_id = name;
  user_id = str "u";
  api_key_id = str "k";
  trajectory = trajectory;
  covered_by_conversation_id = [];
  analysis_status = pending;
}

abbrev rows : List Conversation
rows = row 1 (str "one") (str "ab") ∷ row 2 (str "two") (str "abc") ∷ []

rows-AreDistinct : AreDistinct rows
rows-AreDistinct c d here here e = refl
rows-AreDistinct c d here (there here) e = absurd (omega arith)
rows-AreDistinct c d (there here) here e = absurd (omega arith)
rows-AreDistinct c d (there here) (there here) e = refl
rows-AreDistinct c d here (there (there j)) e = elim j [ ]
rows-AreDistinct c d (there here) (there (there j)) e = elim j [ ]
rows-AreDistinct c d (there (there i)) j e = elim i [ ]

first_is_covered :
    map (λ c. c.covered_by_conversation_id) (mark_covered_by_group loads rows rows).0
    ≡ str "two" ∷ [] ∷ []
unfolding mark_covered_by_group str ◌==◌ parse_trajectory is_prefix_trajectory equals same
first_is_covered = refl

-- a dict with `1` and `true`, and one with `1.0` and `1` in the other order
one_is_true :
    equals
      (object (field (str "a") (int false 1) (field (str "b") (bool true) end)))
      (object (field (str "b") (int false 1) (field (str "a") (float 0x3ff0000000000000) end)))
    ≡ true
unfolding equals same loosely str ◌==◌ lookup exact_of
one_is_true = refl

mark_covered_by_group-IsSound_example : IsSound loads rows (mark_covered_by_group loads rows rows).0
mark_covered_by_group-IsSound_example =
    mark_covered_by_group-IsSound loads rows rows rows rows-AreDistinct (here, (there here, tt))
      (refl, (inl refl, (inl refl, tt)))

abbrev config : CoverageAnalysisConfig
config = record { max_seconds = 10; max_records = 5; batch_size = 1 }

-- the second round fails in its commit
abbrev surroundings : Surroundings
surroundings = record {
  elapsed = λ round. round;
  elapsed_at_end = 3;
  is_stopping = λ round. false;
  arrivals = λ round. [];
  is_cancelled = λ round. false;
  final_write = written;
  fault = λ round. if eqb round 1 then on_commit else no_fault;
}

execute_coverage_job-Ends_example :
    (p : Progress) × ((r : Option Status) × ((execute_coverage_job loads config surroundings
            (new_job 1 0)
            rows
          ≡ some (p, r))
        × ((p.processed ≤ config.max_records) × Left surroundings (new_job 1 0).status p r)))
execute_coverage_job-Ends_example =
    execute_coverage_job-Ends loads config surroundings (new_job 1 0) rows
