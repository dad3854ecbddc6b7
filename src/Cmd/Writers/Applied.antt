-- ===== src/Cmd/Writers/Applied.antt =====
-- cmd/writers.go: the settings of the file in a checked configuration.
use logtailr.Base.{
  ℕ, String, ◌≡◌, refl, ap, sym, ◌∙◌, Bool, true, false, Option, none, some, List, [], ◌∷◌, ◌++◌,
  if◌then◌else◌, str_eq, arith,
}
use logtailr.Base.Int.{ℤ, pos}
use logtailr.Base.Dict.{get}
use logtailr.Base.Result.{Result, ok, err, ◌>>◌}
use logtailr.Config.{Checkers, FileOutputConfig, OutputsConfig}
use logtailr.Config.ByteSize.{parse_byte_size}
use logtailr.Config.Outputs.{
  rethrow, check_file, validate_outputs_config, invalid_max_size, invalid_max_age,
}
use logtailr.Output.File.{
  Disk, FileWriter, FileOption, with_max_size, with_max_age, with_compress, new_file_writer,
  apply_option, apply_options, with_path, texts_of, bytes_of,
}
use logtailr.Output.OpenSearch.{Cluster}
use logtailr.Output.Webhook.{Network}
use logtailr.Cmd.Writers.{option_of, file_opts_from_output_config}

-- a number that is set, and 0 where nothing is set
abbrev pub setting : {E : Type 0} → String → Result E ℤ → Result E ℤ
setting text r = if str_eq text "" then ok (pos 0) else r

-- a check that succeeds, and the one after it
both_ok : {E : Type 0} (m k : Result E Unit) → m >> k ≡ ok tt → (m ≡ ok tt) × (k ≡ ok tt)
both_ok (ok tt) k h = (refl, h)
both_ok (err e) k h = ground arith

settled :
    {F E : Type 0} (b : Bool) (f : E → F) (g : Result E ℤ → Result F Unit) (r : Result E ℤ)
    → ((e : E) → g (err e) ≡ err (f e))
    → (if b then ok tt else g r) ≡ ok tt
    → (n : ℤ) × ((if b then ok (pos 0) else r) ≡ ok n)
settled true f g r hg h = (pos 0, refl)
settled false f g (ok n) hg h = (n, refl)
settled false f g (err e) hg h = ground (arith, hg e)

abbrev base : String → ℕ → ℤ → ℤ → Bool → FileWriter
base path size max_size max_age compress = record {
  path = path;
  is_open = true;
  size = size;
  max_size = max_size;
  max_age = max_age;
  compress = compress;
}

module _ (lib : Checkers) (net : Network) (cluster : Cluster) where
  open lib use {parse_duration}

  IsSettled : FileOutputConfig → ℤ → ℤ → Type 0
  IsSettled c size age =
      (setting c.max_size (parse_byte_size c.max_size) ≡ ok size)
      × (setting c.max_age (parse_duration c.max_age) ≡ ok age)

  check_file-IsSettled :
      (c : FileOutputConfig)
      → check_file lib (some c) ≡ ok tt
      → (size : ℤ) × (age : ℤ) × IsSettled c size age
  unfolding check_file IsSettled
  check_file-IsSettled c h =
      let (h1, aged) = both_ok _ _ h in
      let (_, sized) = both_ok _ _ h1 in
      let (size, hs) =
        settled (str_eq c.max_size "") invalid_max_size (rethrow lib invalid_max_size) _ (λ e. refl)
          sized in
      let (age, ha) =
        settled (str_eq c.max_age "") invalid_max_age (rethrow lib invalid_max_age) _ (λ e. refl)
          aged in
      (size, age, (hs, ha))

  validate_outputs_config-check_file :
      (outputs : OutputsConfig) (allow_local : Bool)
      → validate_outputs_config lib outputs allow_local ≡ ok tt
      → check_file lib outputs.file ≡ ok tt
  unfolding validate_outputs_config
  validate_outputs_config-check_file outputs allow_local h =
      let (h1, _) = both_ok _ _ h in let (_, h2) = both_ok _ _ h1 in h2

  size_applied :
      {E : Type 0} (b : Bool) (r : Result E ℤ) (n : ℤ) (rest : List FileOption) (path : String)
      (size : ℕ)
      → (if b then ok (pos 0) else r) ≡ ok n
      → apply_options
          ((if b then [] else option_of lib net cluster with_max_size r) ++ rest)
          (base path size (pos 0) (pos 0) false)
        ≡ apply_options rest (base path size n (pos 0) false)
  unfolding apply_options apply_option option_of
  size_applied true r n rest path size h = grind arith
  size_applied false (ok m) n rest path size h = grind arith
  size_applied false (err e) n rest path size h = ground arith

  age_applied :
      {E : Type 0} (b : Bool) (r : Result E ℤ) (n : ℤ) (rest : List FileOption) (path : String)
      (size : ℕ) (max_size : ℤ)
      → (if b then ok (pos 0) else r) ≡ ok n
      → apply_options
          ((if b then [] else option_of lib net cluster with_max_age r) ++ rest)
          (base path size max_size (pos 0) false)
        ≡ apply_options rest (base path size max_size n false)
  unfolding apply_options apply_option option_of
  age_applied true r n rest path size max_size h = grind arith
  age_applied false (ok m) n rest path size max_size h = grind arith
  age_applied false (err e) n rest path size max_size h = ground arith

  compress_applied :
      (b : Bool) (path : String) (size : ℕ) (max_size max_age : ℤ)
      → apply_options (if b then with_compress ∷ [] else []) (base path size max_size max_age false)
        ≡ base path size max_size max_age b
  unfolding apply_options apply_option
  compress_applied true path size max_size max_age = refl
  compress_applied false path size max_size max_age = refl

  new_file_writer-apply_options :
      (path : Option String) (missing fails no_stat : Bool) (opts : List FileOption) (disk : Disk)
      (fw : FileWriter)
      → (new_file_writer path missing fails no_stat opts disk).0 ≡ ok fw
      → (p : String) × (n : ℕ) × (fw ≡ apply_options opts (base p n (pos 0) (pos 0) false))
  unfolding new_file_writer with_path
  new_file_writer-apply_options none missing fails no_stat opts disk fw h = ground arith
  new_file_writer-apply_options (some p) true fails no_stat opts disk fw h = ground arith
  new_file_writer-apply_options (some p) false true no_stat opts disk fw h = ground arith
  new_file_writer-apply_options (some p) false false true opts disk fw h = ground arith
  new_file_writer-apply_options (some p) false false false opts disk fw h =
      (p, bytes_of (texts_of (get disk p)), ground arith)

  apply_options-file_opts_from_output_config :
      (c : FileOutputConfig) (size age : ℤ) (p : String) (n : ℕ)
      → IsSettled c size age
      → apply_options
          (file_opts_from_output_config lib net cluster c)
          (base p n (pos 0) (pos 0) false)
        ≡ base p n size age c.compress
  unfolding file_opts_from_output_config IsSettled
  apply_options-file_opts_from_output_config c size age p n (hs, ha) =
      size_applied (str_eq c.max_size "") (parse_byte_size c.max_size) size _ p n hs
      ∙ age_applied (str_eq c.max_age "") (parse_duration c.max_age) age _ p n size ha
      ∙ compress_applied c.compress p n size age

  -- Where the outputs of a configuration pass the checks, the file that it asks for, if it can be
  -- opened, has the maximal size and the age that the texts of the configuration are read as, 0 for an
  -- empty text, and its compression. Values that are not positive are among these.
  pub validate_outputs_config-new_file_writer :
      (outputs : OutputsConfig) (allow_local : Bool) (c : FileOutputConfig) (path : Option String)
      (missing fails no_stat : Bool) (disk : Disk) (fw : FileWriter)
      → validate_outputs_config lib outputs allow_local ≡ ok tt
      → outputs.file ≡ some c
      → (new_file_writer path missing fails no_stat
          (file_opts_from_output_config lib net cluster c)
          disk).0
        ≡ ok fw
      → (setting c.max_size (parse_byte_size c.max_size) ≡ ok fw.max_size)
        × (setting c.max_age (parse_duration c.max_age) ≡ ok fw.max_age)
        × (fw.compress ≡ c.compress)
  unfolding IsSettled
  validate_outputs_config-new_file_writer outputs allow_local c path missing fails no_stat disk fw
        valid is_file h =
      let checked = validate_outputs_config-check_file outputs allow_local valid in
      let (size, age, settled') =
        check_file-IsSettled c (ap (λ o. check_file lib o) (sym is_file) ∙ checked) in
      let (p, n, e) =
        new_file_writer-apply_options path missing fails no_stat
          (file_opts_from_output_config lib net cluster c) disk fw h in
      let same = e ∙ apply_options-file_opts_from_output_config c size age p n settled' in
      (
        settled'.0 ∙ ap (λ w. ok w.max_size) (sym same),
        settled'.1 ∙ ap (λ w. ok w.max_age) (sym same),
        ap (λ w. w.compress) same,
      )
