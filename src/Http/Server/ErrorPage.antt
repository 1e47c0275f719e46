-- ===== src/Http/Server/ErrorPage.antt =====
-- `defaultErrorHandler` of lib/src/utils.cc, which an application uses unless it has its own.
use cppmhd.Prelude.{
  ◌≡◌, refl, ap, ◌∙◌, List, true, false, [], ◌∷◌, ◌++◌, Str, codes, decimal, length, length-append,
  ltb, arith, ◌==◌,
}
use mathlib.Core.List.{append_assoc}
use cppmhd.Core.Status.{HttpStatusCode, status_value, dispatch_error_code}
use cppmhd.Entity.{Response, content_type, body_text, header, header_value, set_header, same_header}
use cppmhd.Http.Server.{send, server_key}

-- The lines of the page, each with its end.
abbrev page_line : Str → Str
page_line s = s ++ 10 ∷ []

abbrev padding : Str
padding = page_line (codes "<!-- a padding to disable MSIE and Chrome friendly error page -->")

-- `FORMAT("{} {}", sc, dispatchErrorCode(sc))`
unfoldable pub error_title : HttpStatusCode → Str
error_title sc = decimal (status_value sc) ++ b' ' ∷ dispatch_error_code (status_value sc)

-- The page above the message, and below it.
unfoldable pub page_head : HttpStatusCode → Str
page_head sc =
    page_line (codes "<html>")
    ++ (page_line (codes "<head><title>" ++ (error_title sc ++ codes "</title></head>"))
        ++ (page_line (codes "<body>")
            ++ (page_line (codes "<center><h1>" ++ (error_title sc ++ codes "</h1>"))
                ++ codes "<h2>")))

unfoldable pub page_foot : Str → Str
page_foot project =
    page_line (codes "</h2>")
    ++ (page_line (codes "</center>")
        ++ (page_line (codes "<hr><center>" ++ (project ++ codes "</center>"))
            ++ (page_line (codes "</body>")
                ++ (page_line (codes "</html>")
                    ++ (padding ++ (padding ++ (padding ++ (padding ++ (padding ++ padding)))))))))

-- `HttpResponse()` with the status set.
abbrev empty_response : HttpStatusCode → Response
empty_response sc = record { sc = sc; headers = []; body = record { bytes = []; owned = false } }

abbrev pub text_html : Str
text_html = codes "text/html"

-- `defaultErrorHandler(sc, error, msg)`; the error number is not used.
unfoldable pub default_error_handler : Str → HttpStatusCode → Str → Response
unfolding page_head page_foot body_text header
default_error_handler project sc message =
    header content_type text_html
      (body_text (page_head sc ++ (message ++ page_foot project)) (empty_response sc))

filled-append : (s t : Str) → (length s == 0) ≡ false → (length (s ++ t) == 0) ≡ false
filled-append s t h = ground (arith, length-append s t, h)

page_head-filled : (sc : HttpStatusCode) → (length (page_head sc) == 0) ≡ false
unfolding page_head
page_head-filled sc =
    filled-append (page_line (codes "<html>"))
      (page_line (codes "<head><title>" ++ (error_title sc ++ codes "</title></head>"))
        ++ (page_line (codes "<body>")
            ++ (page_line (codes "<center><h1>" ++ (error_title sc ++ codes "</h1>"))
                ++ codes "<h2>")))
      refl

send-text_html :
    (project text : Str) (sc : HttpStatusCode)
    → (length text == 0) ≡ false
    → send project (header content_type text_html (body_text text (empty_response sc))) ≡ record {
      status = sc;
      headers = (content_type, text_html) ∷ (server_key, project) ∷ [];
      bytes = text;
      must_copy = true;
    }
unfolding send body_text header header_value set_header same_header
send-text_html project text sc h =
    let more : ltb 0 (length text) ≡ true = ground (arith, h) in rw (body_text, send, h, more) refl

-- Lines, each with its end.
abbrev pub lines : List Str → Str
lines [] = []
lines (l ∷ ls) = l ++ 10 ∷ lines ls

abbrev comment : Str
comment = codes "<!-- a padding to disable MSIE and Chrome friendly error page -->"

-- What the page is to be: its title and its heading are the number of the status and its name.
abbrev pub page : Str → HttpStatusCode → Str → List Str
page project sc message =
    let title = decimal (status_value sc) ++ (codes " " ++ dispatch_error_code (status_value sc)) in
    codes "<html>"
    ∷ (codes "<head><title>" ++ (title ++ codes "</title></head>"))
    ∷ codes "<body>"
    ∷ (codes "<center><h1>" ++ (title ++ codes "</h1>"))
    ∷ (codes "<h2>" ++ (message ++ codes "</h2>"))
    ∷ codes "</center>"
    ∷ (codes "<hr><center>" ++ (project ++ codes "</center>"))
    ∷ codes "</body>"
    ∷ codes "</html>"
    ∷ comment
    ∷ comment
    ∷ comment
    ∷ comment
    ∷ comment
    ∷ comment
    ∷ []

lines-page :
    (a b c d e m f g h i j rest : Str)
    → (page_line a ++ (page_line b ++ (page_line c ++ (page_line d ++ e))))
        ++ (m
            ++ (page_line f
                ++ (page_line g ++ (page_line h ++ (page_line i ++ (page_line j ++ rest))))))
      ≡ a
        ++ 10
          ∷ (b
              ++ 10
                ∷ (c
                    ++ 10
                      ∷ (d
                          ++ 10
                            ∷ ((e ++ (m ++ f))
                                ++ 10 ∷ (g ++ 10 ∷ (h ++ 10 ∷ (i ++ 10 ∷ (j ++ 10 ∷ rest))))))))
lines-page a b c d e m f g h i j rest = simp (append_assoc)

page_lem :
    (project message : Str) (sc : HttpStatusCode)
    → page_head sc ++ (message ++ page_foot project) ≡ lines (page project sc message)
unfolding page_head page_foot error_title
page_lem project message sc =
    let title = error_title sc in
    lines-page (codes "<html>") (codes "<head><title>" ++ (title ++ codes "</title></head>"))
      (codes "<body>") (codes "<center><h1>" ++ (title ++ codes "</h1>")) (codes "<h2>") message
      (codes "</h2>") (codes "</center>") (codes "<hr><center>" ++ (project ++ codes "</center>"))
      (codes "</body>") (codes "</html>")
      (padding ++ (padding ++ (padding ++ (padding ++ (padding ++ padding)))))

-- An error that the default handler answers is sent with its status, under the server's name, as the
-- HTML page of the lines of `page`: the number and the name of the status in the title and the
-- heading, then the message, the server's name and the padding. libmicrohttpd copies the page.
pub send-default_error_handler :
    (project : Str) (sc : HttpStatusCode) (message : Str)
    → send project (default_error_handler project sc message) ≡ record {
      status = sc;
      headers = (content_type, text_html) ∷ (server_key, project) ∷ [];
      bytes = lines (page project sc message);
      must_copy = true;
    }
unfolding default_error_handler
send-default_error_handler project sc message =
    send-text_html project (page_head sc ++ (message ++ page_foot project)) sc
      (filled-append (page_head sc) (message ++ page_foot project) (page_head-filled sc))
    ∙ ap
        (λ text. record {
          status = sc;
          headers = (content_type, text_html) ∷ (server_key, project) ∷ [];
          bytes = text;
          must_copy = true;
        })
        (page_lem project message sc)
