-- ===== src/Store/Settings.antt =====
-- internal/store/settings.go. A setting is kept as JSONB: `jsonb` is the value that is read back.
use logtailr.Logline.{Json}
use logtailr.Base.{String, Option}
use logtailr.Base.Dict.{get, put}
use logtailr.Base.Result.{ok}
use logtailr.Store.{Store, Outcome, sent}

-- GetSetting; a missing key is no error
unfoldable pub get_setting : String → Store → Outcome (Option Json)
unfolding sent
get_setting key st = sent st (ok (get st.settings key), st)

-- SetSetting
unfoldable pub set_setting : (Json → Json) → String → Json → Store → Outcome Unit
unfolding sent
set_setting jsonb key value st =
    sent st (ok tt, record st { settings = put st.settings key (jsonb value) })
