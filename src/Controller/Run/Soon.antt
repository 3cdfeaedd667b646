-- ===== src/Controller/Run/Soon.antt =====
-- pkg/controller/hawtio: when the call after the making of a certificate is due.
use hawtio_operator.Base.Act.{Act}
use hawtio_operator.Controller.Run.Works.{Works}
