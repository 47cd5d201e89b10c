-- ===== src/Core/Json/Tests.antt =====
-- Runs of the functions on JSON values.
use nestai.Prelude.{◌≡◌, refl, true}
use nestai.Contracts.Entities.{text, number, boolean, null, array, object, nil, cons, empty, entry}
use nestai.Core.Json.{shown, stringify}

shown_array : shown (array (cons (text "a") (cons null (cons (number "3") nil)))) ≡ "a,,3"
shown_array = refl

stringified :
    stringify (object (entry "a\"b" (array (cons (boolean true) nil)) (entry "c" null empty)))
    ≡ "{\"a\\\"b\":[true],\"c\":null}"
stringified = refl
