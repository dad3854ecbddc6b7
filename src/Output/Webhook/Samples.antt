-- ===== src/Output/Webhook/Samples.antt =====
-- An encoding of items by texts, on which the theorems about batches are tried.
use Prim.Native.Char.{Char, code}
use Prim.Native.String.{[] as empty, ◌∷◌ as ◌⊲◌}
use logtailr.Base.{String, ◌≡◌, refl, ap, ◌∙◌, ◌==◌, List, [], ◌∷◌, if◌then◌else◌}
use logtailr.Output.Webhook.{Item}

-- each letter after an "x", and the end of the text as "ee"
write_text : String → String → String
write_text empty rest = "e" ⊲ ("e" ⊲ rest)
write_text (c ⊲ s) rest = "x" ⊲ (c ⊲ write_text s rest)

add_letter : Char → List String → List String
add_letter c [] = []
add_letter c (s ∷ texts) = (c ⊲ s) ∷ texts

read_texts : String → List String
unfolding add_letter
read_texts empty = []
read_texts (m ⊲ empty) = []
read_texts (m ⊲ (c ⊲ rest)) =
    let texts = read_texts rest in if code m == 120 then add_letter c texts else "" ∷ texts

read_texts-write_text : (s rest : String) → read_texts (write_text s rest) ≡ s ∷ read_texts rest
unfolding read_texts write_text add_letter
read_texts-write_text empty rest = refl
read_texts-write_text (c ⊲ s) rest = ap (add_letter c) (read_texts-write_text s rest)

-- the body of items
unfoldable pub body_of : List Item → String
unfolding write_text
body_of [] = ""
body_of (i ∷ items) =
    write_text i.timestamp
      (write_text i.level (write_text i.message (write_text i.source (body_of items))))

grouped : List String → List Item
grouped (timestamp ∷ level ∷ message ∷ source ∷ texts) =
    record { timestamp = timestamp; level = level; message = message; source = source }
    ∷ grouped texts
grouped texts = []

unfoldable pub items_in : String → List Item
unfolding grouped read_texts
items_in body = grouped (read_texts body)

pub items_in-body_of : (items : List Item) → items_in (body_of items) ≡ items
unfolding items_in body_of grouped read_texts
items_in-body_of [] = refl
items_in-body_of (i ∷ items) =
    let rest = body_of items in
    let source = read_texts-write_text i.source rest in
    let message =
      read_texts-write_text i.message (write_text i.source rest) ∙ ap (λ l. i.message ∷ l) source in
    let level =
      read_texts-write_text i.level (write_text i.message (write_text i.source rest))
      ∙ ap (λ l. i.level ∷ l) message in
    ap grouped (
      read_texts-write_text i.timestamp
        (write_text i.level (write_text i.message (write_text i.source rest)))
      ∙ ap (λ l. i.timestamp ∷ l) level)
    ∙ ap (λ l. i ∷ l) (items_in-body_of items)
