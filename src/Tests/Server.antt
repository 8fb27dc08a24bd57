-- ===== src/Tests/Server.antt =====
-- The authentication and the parallel frequencies on small data.
use mquery.Corpora.Files.{CorporaSetup}
use mquery.Server.Config.{ServerConf}
use mquery.Base.{
  false, refl, ℕ, ◌≡◌, ◌↔◌, ◌⊎◌, some, none, List, [], ◌∷◌, ◌++◌, true, if◌then◌else◌, Bool,
}
use mquery.Base.Int.{pos}
use mquery.Base.Text.{String, str_eq}
use mquery.Results.{FreqDistrib, cut, merge_item, merge_items, merge_with}
use mquery.Base.Sort.{slice_stable}
use mquery.Base.Word.{add64, slt64}
use mquery.Rdb.Query.{FreqDistribArgs}
use mquery.Server.Auth.{AuthConf, NetPackage, auth_required}
use mquery.Server.Auth.Access.{IsLocalDirect, IsTokenFor, Some, auth_required-passes}
use mquery.Handlers.Parallel.{
  UrlArgs, chunk_args, empty_distrib, Group, new_group, Turn, publishing, merging, run_turns,
  run_chunks, ranked, waits_forever, pending, response,
}
use mquery.Handlers.Parallel.Waiting.{IsCut, IsAtRest, run_chunks-waits}
use mquery.Handlers.Parallel.Ranking.{IsRanked, ranked-IsTop}
use mquery.Tests.{nat_floats, item, distrib}

-- A network is one address, and an address has no port.
abbrev net : NetPackage
net = record {
  Ip = String;
  Network = String;
  parse_ip = λ s. some s;
  parse_cidr = λ s. some s;
  holds = λ n ip. str_eq n ip;
  split_host_port = λ s. some s;
}

abbrev conf : AuthConf
conf = record {
  listen_address = "127.0.0.1";
  known_proxies = "10.0.0.1" ∷ [];
  local_networks = "10.0.0.1" ∷ "10.0.0.2" ∷ [];
  tokens = "secret" ∷ "sha256:abc" ∷ [];
}

abbrev sum : String → String
sum s = if str_eq s "hidden" then "abc" else "def"

auth_required-passes_example :
    (auth_required net sum conf "10.0.0.1" "hidden" ≡ true)
    ↔ (IsLocalDirect net conf "10.0.0.1" ⊎ Some (IsTokenFor sum "hidden") conf.tokens)
auth_required-passes_example = auth_required-passes net sum conf "10.0.0.1" "hidden"

abbrev url : UrlArgs
url = record { flimit = none; max_items = none; within = none; fcrit = "" }

abbrev queries : List FreqDistribArgs
queries =
    chunk_args "/corp/a" "[]" url (pos 1) (pos 20) "chunk_00.subc"
    ∷ chunk_args "/corp/a" "[]" url (pos 1) (pos 20) "chunk_01.subc"
    ∷ []

-- Only the first chunk can be published.
abbrev publishes : FreqDistribArgs → Bool
publishes args = str_eq args.subc_path "chunk_00.subc"

abbrev answer : FreqDistrib ℕ
answer = distrib 5 (item "dog" 2 100 20000 ∷ item "cat" 3 100 30000 ∷ [])

-- The answer of the first chunk comes before the loop has reached the second.
abbrev turns : List (Turn nat_floats)
turns = publishing ∷ merging (some answer) ∷ publishing ∷ []

run_chunks_stuck : run_chunks nat_floats publishes queries turns (pos 20) ≡ waits_forever
unfolding run_chunks
run_chunks_stuck = refl

run_chunks_responds :
    run_chunks nat_floats (λ args. true) queries (turns ++ merging none ∷ []) (pos 20)
    ≡ response (record (empty_distrib nat_floats) {
      conc_size = 5;
      freqs = item "cat" 3 100 30000 ∷ item "dog" 2 100 20000 ∷ [];
    })
unfolding run_chunks add64 slt64 merge_with merge_items merge_item cut slice_stable
run_chunks_responds = refl

run_chunks-waits_example :
    (g : Group nat_floats) × (run_turns nat_floats publishes turns (new_group nat_floats queries)
      ≡ some g)
    × ((run_chunks nat_floats publishes queries turns (pos 20) ≡ pending)
        ↔ ¬ (IsAtRest nat_floats publishes g))
    × ((run_chunks nat_floats publishes queries turns (pos 20) ≡ waits_forever)
        ↔ (IsAtRest nat_floats publishes g × IsCut publishes queries))
run_chunks-waits_example = run_chunks-waits nat_floats publishes queries turns (pos 20)

ranked-IsTop_example : IsRanked nat_floats (pos 1) answer (ranked nat_floats (pos 1) answer)
ranked-IsTop_example = ranked-IsTop nat_floats (pos 1) answer

abbrev czech : ServerConf
czech = record {
  listen_address = "127.0.0.1";
  public_urls = [];
  server_write_timeout_secs = pos 0;
  corpora_setup = none;
  allow_custom_timeouts = true;
  locales = record { name = "cs"; is_default = true } ∷ [];
  time_zone = "";
}

abbrev no_corpora : CorporaSetup
no_corpora = record {
  registry_dir = "/registry";
  split_corpora_dir = "/split";
  multiproc_chunk_size = pos 0;
  mktokencov_path = "/mktokencov";
  resources = [];
  zero_conf_corpora = true;
}

abbrev checked_czech : ServerConf
checked_czech = record czech {
  public_urls = "http://127.0.0.1" ∷ [];
  server_write_timeout_secs = pos 30;
  corpora_setup = some no_corpora;
  locales =
      record { name = "cs"; is_default = true } ∷ record { name = "en"; is_default = false } ∷ [];
}
