-- ===== src/Cmd/Writers/Asked.antt =====
-- cmd/writers.go: which writers are created.
use mathlib.Core.List.{map-append}
use logtailr.Base.{
  ◌≡◌, refl, ap, Bool, true, false, not, ◌&&◌, Option, none, some, List, [], ◌∷◌, ◌++◌, map,
  if◌then◌else◌, str_eq, ◌∙◌, arith,
}
use logtailr.Base.Result.{Result, ok, err}
use logtailr.Config.{
  Checkers, OpenSearchOutputConfig, WebhookOutputConfig, FileOutputConfig, OutputsConfig,
}
use logtailr.Output.File.{Disk, FileWriter, FileError}
use logtailr.Output.OpenSearch.{Cluster, CreateError, OpenSearchWriter}
use logtailr.Output.Webhook.{Network, WebhookError, WebhookWriter}
use logtailr.Cmd.Writers.{
  Opening, Flags, Single, console_writer, json_writer, file_writer, open_search_writer,
  webhook_writer, Created, alone, multi, Step, opened, open_file, primary, file_output,
  open_search_output, webhook_output, open_search_created, webhook_created, appended, add, gathered,
  all_gathered, all_outputs, create_writer,
}

pub data Kind : Type 0 where
  console : Kind
  json : Kind
  file : Kind
  open_search : Kind
  webhook : Kind

abbrev when : Bool → Kind → List Kind
when true k = k ∷ []
when false k = []

abbrev file_asked : Flags → Option FileOutputConfig → Bool
file_asked flags none = false
file_asked flags (some c) = not (str_eq c.path "") && not (str_eq flags.output "file")

abbrev open_search_asked : Option OpenSearchOutputConfig → Bool
open_search_asked none = false
open_search_asked (some c) = c.enabled

abbrev webhook_asked : Option WebhookOutputConfig → Bool
webhook_asked none = false
webhook_asked (some c) = c.enabled

abbrev primary_kind : Flags → Kind
primary_kind flags =
    if str_eq flags.output "json"
    then json
    else (if str_eq flags.output "file" then file else console)

-- the kinds of writers that the flags and the outputs ask for
unfoldable pub asked : Flags → Option OutputsConfig → List Kind
asked flags none = primary_kind flags ∷ []
asked flags (some outputs) =
    ((primary_kind flags ∷ when (file_asked flags outputs.file) file)
      ++ when (open_search_asked outputs.open_search) open_search)
    ++ when (webhook_asked outputs.webhook) webhook

module _ (lib : Checkers) (net : Network) (cluster : Cluster) where
  unfoldable pub kind_of : Single lib net cluster → Kind
  kind_of console_writer = console
  kind_of json_writer = json
  kind_of (file_writer fw) = file
  kind_of (open_search_writer w) = open_search
  kind_of (webhook_writer w) = webhook

  -- the kinds of the writers of which a writer is made
  unfoldable pub kinds : Created lib net cluster → List Kind
  unfolding kind_of
  kinds (alone w) = kind_of w ∷ []
  kinds (multi ws) = map kind_of ws

  -- a step that has no writers of other kinds
  abbrev Has : List Kind → Step lib net cluster → Type 0
  Has ks (err e, disk) = Unit
  Has ks (ok ws, disk) = map kind_of ws ≡ ks

  opened-Has : (r : Result FileError FileWriter × Disk) → Has (file ∷ []) (opened lib net cluster r)
  unfolding opened kind_of
  opened-Has (ok fw, disk) = refl
  opened-Has (err e, disk) = tt

  branch :
      (b : Bool) (ks js : List Kind) (s t : Step lib net cluster)
      → Has ks s
      → Has js t
      → Has (if b then ks else js) (if b then s else t)
  branch true ks js s t h h' = h
  branch false ks js s t h h' = h'

  either_kind :
      (b : Bool) (k j : Kind) (s : Step lib net cluster)
      → Has (if b then k ∷ [] else j ∷ []) s
      → Has ((if b then k else j) ∷ []) s
  either_kind true k j s h = h
  either_kind false k j s h = h

  primary-Has :
      (os : Opening) (flags : Flags) (outputs : Option OutputsConfig) (disk : Disk)
      → Has (primary_kind flags ∷ []) (primary lib net cluster os flags outputs disk)
  unfolding primary open_file kind_of
  primary-Has os flags outputs disk = either_kind (str_eq flags.output "json") json _ _ (
      branch (str_eq flags.output "json") _ _ _ _ refl (
        either_kind (str_eq flags.output "file") file console _
          (branch (str_eq flags.output "file") _ _ _ _ (opened-Has _) refl)))

  when_branch :
      (b : Bool) (k : Kind) (s : Step lib net cluster) (disk : Disk)
      → Has (k ∷ []) s
      → Has (when b k) (if b then s else (ok [], disk))
  when_branch true k s disk h = h
  when_branch false k s disk h = refl

  file_output-Has :
      (os : Opening) (flags : Flags) (c : Option FileOutputConfig) (disk : Disk)
      → Has (when (file_asked flags c) file) (file_output lib net cluster os flags c disk)
  unfolding file_output open_file
  file_output-Has os flags none disk = refl
  file_output-Has os flags (some c) disk =
      when_branch (not (str_eq c.path "") && not (str_eq flags.output "file")) file _ disk
        (opened-Has _)

  open_search_created-Has :
      (b : Bool) (r : Result (CreateError cluster.Error) (OpenSearchWriter cluster)) (disk : Disk)
      → Has
          (when b open_search)
          ((if b then open_search_created lib net cluster r else ok []), disk)
  unfolding open_search_created kind_of
  open_search_created-Has true (ok w) disk = refl
  open_search_created-Has true (err e) disk = tt
  open_search_created-Has false r disk = refl

  webhook_created-Has :
      (b : Bool) (r : Result (WebhookError net.Error) WebhookWriter) (disk : Disk)
      → Has (when b webhook) ((if b then webhook_created lib net cluster r else ok []), disk)
  unfolding webhook_created kind_of
  webhook_created-Has true (ok w) disk = refl
  webhook_created-Has true (err e) disk = tt
  webhook_created-Has false r disk = refl

  open_search_output-Has :
      (c : Option OpenSearchOutputConfig) (disk : Disk)
      → Has (when (open_search_asked c) open_search) (open_search_output lib net cluster c disk)
  unfolding open_search_output
  open_search_output-Has none disk = refl
  open_search_output-Has (some c) disk = open_search_created-Has c.enabled _ disk

  webhook_output-Has :
      (c : Option WebhookOutputConfig) (disk : Disk)
      → Has (when (webhook_asked c) webhook) (webhook_output lib net cluster c disk)
  unfolding webhook_output
  webhook_output-Has none disk = refl
  webhook_output-Has (some c) disk = webhook_created-Has c.enabled _ disk

  appended-Has :
      (ks js : List Kind) (ws : List (Single lib net cluster)) (s : Step lib net cluster)
      → map kind_of ws ≡ ks
      → Has js s
      → Has (ks ++ js) (appended lib net cluster ws s)
  unfolding appended
  appended-Has ks js ws (err e, disk) h h' = tt
  appended-Has ks js ws (ok more, disk) h h' =
      map-append kind_of ws more ∙ ap (λ l. l ++ map kind_of more) h ∙ ap (λ l. ks ++ l) h'

  add-Has :
      (ks js : List Kind) (s : Step lib net cluster) (next : Disk → Step lib net cluster)
      → Has ks s
      → ((d : Disk) → Has js (next d))
      → Has (ks ++ js) (add lib net cluster s next)
  unfolding add
  add-Has ks js (err e, disk) next h h' = tt
  add-Has ks js (ok ws, disk) next h h' = appended-Has ks js ws (next disk) h (h' disk)

  kinds-gathered :
      (ws : List (Single lib net cluster)) → kinds (gathered lib net cluster ws) ≡ map kind_of ws
  unfolding kinds gathered
  kinds-gathered [] = refl
  kinds-gathered (w ∷ []) = refl
  kinds-gathered (w ∷ v ∷ ws) = refl

  kinds-all_gathered :
      (ks : List Kind) (s : Step lib net cluster) (w : Created lib net cluster)
      → Has ks s
      → (all_gathered lib net cluster s).0 ≡ ok w
      → kinds w ≡ ks
  unfolding all_gathered
  kinds-all_gathered ks (err e, disk) w h e' = ground arith
  kinds-all_gathered ks (ok ws, disk) w h e' = ground (arith, kinds-gathered ws)

  -- A writer that is created is made of exactly the writers that the flag and the configuration ask
  -- for: the one of the flag, then the file unless the flag has taken it, OpenSearch and the webhook
  -- where they are enabled.
  pub kinds-create_writer :
      (os : Opening) (flags : Flags) (outputs : Option OutputsConfig) (disk : Disk)
      (w : Created lib net cluster)
      → (create_writer lib net cluster os flags outputs disk).0 ≡ ok w
      → kinds w ≡ asked flags outputs
  unfolding create_writer all_outputs asked
  kinds-create_writer os flags none disk w h =
      kinds-all_gathered _ _ w (primary-Has os flags none disk) h
  kinds-create_writer os flags (some outputs) disk w h =
      kinds-all_gathered _ _ w
        (add-Has _ _ _ _
          (add-Has _ _ _ _
            (add-Has (primary_kind flags ∷ []) _ _ _ (primary-Has os flags (some outputs) disk)
              (file_output-Has os flags outputs.file))
            (open_search_output-Has outputs.open_search))
          (webhook_output-Has outputs.webhook))
        h
