-- ===== src/Router/Answers.antt =====
-- What DBmwRouter::handle does with an answer from the DB middleware, in JSON and in protobuf.
use server_application.Common.{
  ◌≡◌, refl, Bool, true, false, some, [], is_empty, Text, text_eq, codes, text_key, lookup, ℤ,
}
use server_application.Json.{Json}
use server_application.Router.{Router}
use server_application.Router.Calls.{
  db_query_result, error_msg, answer_request, handle, handle_envelope, handle_type, answer_or_route,
  query_result, error_message, query_result_entries, error_message_entries, is_answer,
}

module _ {J : Type 0} (json : Json J) where
  handle_answer :
      (r : Router J) (j : J) (type id : Text)
      → json.value j (codes "type") [] ≡ some type
      → json.value j (codes "req_id") [] ≡ some id
      → is_answer type ≡ true
      → is_empty id ≡ false
      → handle json r j ≡ some (answer_request json r id j (text_eq type (codes "db_query_result")))
  unfolding handle handle_type answer_or_route
  handle_answer r j type id e f a h =
      rw (e, handle) (rw (a, handle_type) (rw (f, handle_type) (rw (h, answer_or_route))))

  -- A protobuf answer with a request id ends the request of that id, as the JSON answer does: a query
  -- result well, an error badly.
  pub handle_envelope-answer :
      (has_client : Bool) (r : Router J) (api id text : Text) (code : ℤ)
      → is_empty id ≡ false
      → (handle_envelope json has_client r (db_query_result api code id text)
          ≡ some (answer_request json r id (query_result json api code id text) true))
        × (handle_envelope json has_client r (error_msg code id text)
            ≡ some (answer_request json r id (error_message json code id text) false))
  unfolding handle_envelope is_answer text_eq lookup
  handle_envelope-answer has_client r api id text code h = (
    handle_answer r (query_result json api code id text) (codes "db_query_result") id
        (json.value-object (query_result_entries json api code id text) (codes "type") []
          (codes "db_query_result") refl)
        (json.value-object (query_result_entries json api code id text) (codes "req_id") [] id refl)
        refl h,
    handle_answer r (error_message json code id text) (codes "db_error") id
        (json.value-object (error_message_entries json code id text) (codes "type") []
          (codes "db_error") refl)
        (json.value-object (error_message_entries json code id text) (codes "req_id") [] id refl)
        refl h,
  )
