-- ===== src/KeyStorage/Tests.antt =====
-- A key that is stored and retrieved, with an encoding that keeps the bytes.
use nerdhub_chat_cli_prototy.Common.{◌≡◌, refl, [], codes}
use nerdhub_chat_cli_prototy.KeyStorage.{Base64, key_not_found, store_key, retrieve_key}
use nerdhub_chat_cli_prototy.Common.JsMap

abbrev base64 : Base64
base64 = record { encode = λ b. b; decode = λ t. t }

empty_key_test :
    retrieve_key base64 (codes "k") (store_key base64 [] (codes "k") []) ≡ key_not_found
unfolding retrieve_key store_key JsMap.set
empty_key_test = refl
