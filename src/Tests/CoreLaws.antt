-- ===== src/Tests/CoreLaws.antt =====
-- The theorems on buffers, contexts, links, identifiers and services at concrete values.
use go_relax.Base.{
  String, Bool, ◌&&◌, true, false, none, some, List, [], ◌∷◌, ◌≡◌, refl, if◌then◌else◌, leb, length,
}
use go_relax.Text.{Text, codes}
use go_relax.Http.Header.{no_header, copy_into}
use go_relax.Http.Request.{Request}
use go_relax.Http.Response.{fresh}
use go_relax.ResponseBuffer.{zero_buffer, new_response_buffer, flush}
use go_relax.ResponseBuffer.Laws.{
  Operation, writes, sends, run_operations, content, first_status, calls, flush-run_operations,
}
use go_relax.Context.{
  Context, Value, Writer, HandlerFunc, net, returned, panicked, new_context, clone, writer_sink,
  text,
}
use go_relax.Context
use go_relax.Linking.{Link, same_relation}
use go_relax.Linking.Laws.{by_relation, AreDistinct}
use go_relax.Util.{new_request_id}
use go_relax.Util.Laws.{all_id_bytes, new_request_id_lem}
use go_relax.Service.{Service, Filter, Entity, Target, a_filter, use_all, a_router, a_logger}
use go_relax.Service.Dispatch.{chain}
use go_relax.Service.Laws.{unlimited, chain-use_all}
use go_relax.Router.Trie.{new_router}

abbrev page : List Operation
page = writes (codes "not ") ∷ sends 404 ∷ writes (codes "found") ∷ sends 200 ∷ []

flush-run_operations_example :
    (flush writer_sink
      (run_operations page (new_response_buffer zero_buffer no_header))
      (net fresh)).1
    ≡ calls writer_sink
        (copy_into no_header no_header)
        (first_status page)
        (content page)
        (net fresh)
flush-run_operations_example = flush-run_operations writer_sink page no_header (net fresh)

abbrev pub get_request : Request
get_request = record {
  method = codes "GET";
  path = codes "/posts";
  raw_query = [];
  request_uri = codes "/posts";
  query = λ key. [];
  user = none;
  scheme = codes "http";
  tls = false;
  header = no_header;
  host = codes "example.com";
  remote_addr = codes "127.0.0.1:80";
  proto = codes "HTTP/1.1";
  content_length = 0;
  body = [];
}

abbrev pub new_one : Context
new_one = record {
  store = [];
  writer = net fresh;
  wrote_header = false;
  status = 0;
  bytes = 0;
  request = get_request;
  path_values = none;
  encode = none;
  decode = none;
}

abbrev used_one : Context
used_one = record new_one { wrote_header = true; status = 404; bytes = 12; path_values = some [] }

abbrev link_to : Text → Text → Link
link_to uri rel = record {
  uri = uri;
  rel = rel;
  anchor = [];
  rev = [];
  href_lang = [];
  media = [];
  title = [];
  titlex = [];
  type = [];
  ext = [];
}

abbrev two_links : List Link
two_links = link_to (codes "/a") (codes "self") ∷ link_to (codes "/b") (codes "next") ∷ []

abbrev link_b : Link
link_b = record (link_to (codes "/b") (codes "next")) { title = codes "B" }

two_links-AreDistinct : AreDistinct two_links
unfolding AreDistinct by_relation same_relation codes
two_links-AreDistinct = (refl, (refl, tt))

new_request_id_lem_example : new_request_id (codes "new") (codes "0123456789abcdefABCDE") ≡ (
    if all_id_bytes (codes "0123456789abcdefABCDE")
      && leb 21 (length (codes "0123456789abcdefABCDE"))
    then codes "0123456789abcdefABCDE"
    else codes "new")
new_request_id_lem_example = new_request_id_lem (codes "new") (codes "0123456789abcdefABCDE")

abbrev pub plain_service : Service
plain_service = record {
  path = codes "/";
  uri_string = codes "/";
  router = new_router [];
  encoders = [];
  filters = [];
  resources = [];
  host = [];
  uptime = 0;
  logger = none;
}

abbrev pub naming : String → Filter
naming name = record {
  run = λ next c. next (Context.set (codes "last") (text (codes name)) c);
  run_in = none;
}

abbrev is_router : Target → Bool
is_router a_router = true
is_router _ = false

abbrev for_routers : Filter
for_routers = record (naming "router") { run_in = some (λ t. is_router t) }

abbrev entities : List Entity
entities = a_filter (naming "a") ∷ a_logger 1 ∷ a_filter for_routers ∷ a_filter (naming "b") ∷ []

chain-use_all_example :
    chain (use_all entities plain_service).filters returned
    ≡ chain plain_service.filters (chain (unlimited entities) returned)
chain-use_all_example = chain-use_all entities plain_service returned
