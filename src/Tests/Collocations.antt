-- ===== src/Tests/Collocations.antt =====
-- A request for collocations with default bounds.
use mquery.Base.{none, Option}
use mquery.Base.Int.{ℤ, pos}
use mquery.Base.Text.{String}
use mquery.Handlers.Collocations.{CollUrl, CollArgs}

abbrev url : CollUrl
url = record {
  measure = "";
  srch_left = none;
  srch_right = none;
  min_coll_freq = none;
  min_corp_freq = none;
  max_items = none;
  event = "";
  srch_attr = "";
}

abbrev args : CollArgs
args = record {
  measure = "logDice";
  srch_left = pos 5;
  srch_right = pos 5;
  min_coll_freq = pos 3;
  min_corp_freq = pos 3;
  max_items = pos 20;
  event = "";
}

abbrev no_int : String → Option ℤ
no_int s = none
