-- ===== src/Rdb/Adapter/Settings.antt =====
-- The settings of an adapter.
use mquery.Base.{
  ℕ, ◌*◌, ◌%◌, ◌≤◌, ◌≡◌, refl, if◌then◌else◌, true, false, arith, Bool-cases, inl, inr, ◌==◌,
}
use mquery.Base.Text.{String, str_eq}
use mquery.Base.Word.{word_mod, slt64}
use mquery.Rdb.Adapter.{
  time_second, default_result_channel_prefix, Conf, new_adapter, effective_timeout,
}

-- The most seconds that a time.Duration holds.
abbrev pub max_secs : ℕ
max_secs = 9223372036

prefix_filled :
    (s : String) → str_eq (if str_eq s "" then default_result_channel_prefix else s) "" ≡ false
prefix_filled s = elim (Bool-cases (str_eq s "")) [ inl e ↦ rw e refl | inr e ↦ rw e e ]

-- The timeout of a query: the custom one if it is positive, otherwise the configured seconds, which
-- are 60 where none are configured.
abbrev pub chosen_timeout : ℕ → ℕ → ℕ
chosen_timeout secs custom =
    if slt64 0 custom then custom else (if secs == 0 then 60 * time_second else secs * time_second)

duration-chosen :
    (secs custom : ℕ)
    → secs ≤ max_secs
    → (if slt64 0 custom
        then custom
        else (if secs * time_second % word_mod == 0
            then 60 * time_second
            else secs * time_second % word_mod))
      ≡ chosen_timeout secs custom
duration-chosen secs custom h = ground arith

chosen-positive : (secs custom : ℕ) → secs ≤ max_secs → slt64 0 (chosen_timeout secs custom) ≡ true
unfolding slt64
chosen-positive secs custom h = ground arith

-- If the configured seconds are neither negative nor more than a time.Duration holds, the timeout of
-- a query is the custom one if that is positive, otherwise the configured seconds in nanoseconds, or
-- 60 s if these are 0, and it is positive as a signed number; the prefix of the result channels is not
-- empty; and the channel of the queries is the configured one, also if that is empty.
pub new_adapter_lem :
    (conf : Conf) (custom : ℕ)
    → conf.query_answer_timeout_secs ≤ max_secs
    → (effective_timeout (new_adapter conf) custom
        ≡ chosen_timeout conf.query_answer_timeout_secs custom)
      × (slt64 0 (effective_timeout (new_adapter conf) custom) ≡ true)
      × (str_eq (new_adapter conf).channel_result_prefix "" ≡ false)
      × ((new_adapter conf).channel_query ≡ conf.channel_query)
unfolding new_adapter effective_timeout
new_adapter_lem conf custom h =
    let secs = conf.query_answer_timeout_secs in
    let chosen = duration-chosen secs custom h in
    (
      chosen,
      rw chosen (chosen-positive secs custom h),
      prefix_filled conf.channel_result_prefix,
      refl,
    )
